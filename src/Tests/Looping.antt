-- ===== src/Tests/Looping.antt =====
-- Programs that store, and loop or stop.
use progs.Prelude.{◌≡◌, refl, true, arith, Option, none, some}
use progs.Memory.{Memory}
use progs.Memory.Layout.{IsBytes, put_word, word_at}
use progs.Core.{ArmCore, ok}
use progs.Core.Typed.{IsTyped}
use progs.Machine.Reference.{reference_run}
use progs.Machine.Reference.Runs.{steps, reference_run_lem}
use progs.Gdb.Interpreter.{run_to_breakpoint}
use progs.Tests.{host, block, core}

-- mov r1, #16; str r2, [r1]; b 0
abbrev program : Memory
program = put_word (put_word (block true 0xE3 0xA0 0x10 0x10) 4 0xE5812000) 8 0xEAFFFFFC

abbrev looping : ArmCore
looping = core program

abbrev pub ended_or : {A : Type 0} → Option A → A → A
ended_or none other = other
ended_or (some a) other = a

-- After seven steps the loop is in its third round.
abbrev looped : ArmCore
looped = ended_or (reference_run host 7 looping) looping

stored_there : word_at looped.mem 16 ≡ 8
stored_there = refl

is_at : looped.reg.cpsr ≡ 4
is_at = refl

program-IsBytes : IsBytes looping.mem
program-IsBytes i = ground arith

looping-IsTyped : IsTyped looping
looping-IsTyped = ((λ i h. omega arith, omega arith), program-IsBytes)

reference_run_lem_example : steps host 7 looping ≡ ok tt looped
reference_run_lem_example =
    reference_run_lem host 7 looping looped (omega arith) looping-IsTyped refl

-- mov r1, #16; str r2, [r1]; a breakpoint
abbrev stopping : Memory
stopping = put_word (put_word (block true 0xE3 0xA0 0x10 0x10) 4 0xE5812000) 8 0xE7F000F0

stopping-IsTyped : IsTyped (core stopping)
stopping-IsTyped = ((λ i h. omega arith, omega arith), λ i. ground arith)

abbrev at_stop : ArmCore
at_stop = (ended_or (run_to_breakpoint host 9 0 (core stopping)) (core stopping, 0)).0

is_at_stop : at_stop.reg.cpsr ≡ 8
is_at_stop = refl
