-- ===== src/Tests/Sessions.antt =====
-- Sessions of a debugger, and the outcome of a step.
use progs.Prelude.{ℕ, ◌≡◌, refl, true, inl, arith, List, [], ◌∷◌, ◌++◌}
use progs.Memory.Layout.{IsBytes}
use progs.Core.{ArmCore}
use progs.Core.Typed.{IsTyped}
use progs.Instruction.{arm_step}
use progs.Instruction.Outcome.{reset_by_step, arm_step_lem}
use progs.Gdb.{Gdb, framed, hex_bytes}
use progs.Gdb.Text.{ok, s05}
use progs.Gdb.Commands.{answered}
use progs.Gdb.Writing.{put_bytes, with_memory}
use progs.Gdb.Block.{ran}
use progs.Gdb.Program.{program_bytes}
use progs.Gdb.Request.{Number}
use progs.Gdb.Packet.{gdb_init_data}
use progs.Scanner.{yylex}
use progs.Scanner.Session.{write_request, read_request, acknowledged, yylex-write-read}
use progs.Gdb.Interpreter.{run_to_breakpoint, at_core}
use progs.Scanner.Stepping.{reason_text}
use progs.Scanner.Running.{yylex-run_to_breakpoint}
use progs.Tests.Looping.{ended_or}
use progs.Scanner.Upload.{uploaded, yylex-upload}
use progs.Tests.{host, block, block-IsBytes, core}

-- moveq r0, r1: the condition fails.
abbrev conditional : ArmCore
conditional = core (block true 0x01 0xA0 0x00 0x01)

arm_step_lem_example : arm_step host conditional ≡ reset_by_step host conditional
arm_step_lem_example =
    arm_step_lem host conditional (omega arith)
      (block-IsBytes true 0x01 0xA0 0x00 0x01 (omega arith) (omega arith) (omega arith)
        (omega arith))
      (omega arith)

-- add r2, r3, r4
abbrev add_word : ℕ
add_word = 0xE0832004

abbrev break_word : ℕ
break_word = 0xE7F000F0

abbrev adding : ArmCore
adding = core (block true 0xE0 0x83 0x20 0x04)

adding-IsBytes : IsBytes adding.mem
adding-IsBytes =
    block-IsBytes true 0xE0 0x83 0x20 0x04 (omega arith) (omega arith) (omega arith) (omega arith)

adding-IsTyped : IsTyped adding
adding-IsTyped = ((λ i h. omega arith, omega arith), adding-IsBytes)

abbrev digit : ℕ → Number
digit d = record { first = d; others = [] }

abbrev stub : Gdb
stub = gdb_init_data adding

-- X1,2: with a byte that is escaped, and m1,2
abbrev two_bytes : List ℕ
two_bytes = 125 ∷ 7 ∷ []

yylex-write-read_example :
    yylex host true 0
      (framed (write_request (digit 1) (digit 2) two_bytes)
        ++ (framed (read_request (digit 1) (digit 2)) ++ []))
      []
      stub
    ≡ yylex host true 0 [] [] (
        answered (hex_bytes two_bytes) (
          acknowledged
            (answered ok (with_memory (put_bytes adding.mem 1 two_bytes) (acknowledged stub)))))
yylex-write-read_example =
    yylex-write-read host true 0 (digit 1) (digit 2) two_bytes stub ((omega arith, tt), omega arith)
      ((omega arith, tt), omega arith) refl (omega arith) adding-IsBytes (inl refl) (omega arith)
      (omega arith) (omega arith, (omega arith, tt)) (omega arith) (omega arith) []

abbrev program : List ℕ
program = add_word ∷ break_word ∷ []

-- X0,8: and c
yylex-upload_example :
    yylex host true 2
      (framed (write_request (digit 0) (digit 8) (program_bytes true program))
        ++ (framed (b'c' ∷ []) ++ []))
      []
      stub
    ≡ yylex host true 2 [] []
        (answered s05 (ran host (add_word ∷ []) (acknowledged (uploaded (digit 0) program stub))))
yylex-upload_example =
    yylex-upload host true 2 (digit 0) (digit 8) add_word [] break_word stub []
      (omega arith, adding-IsTyped, inl refl, omega arith)
      (
        ((omega arith, tt), omega arith),
        ((omega arith, tt), omega arith),
        refl,
        refl,
        refl,
        omega arith,
        omega arith,
        (omega arith, (omega arith, tt)),
      )
      ((refl, refl, inl refl, refl, omega arith), tt) refl (omega arith)

-- mov r1, #16; str r2, [r1]; a breakpoint
abbrev storing : List ℕ
storing = 0xE3A01010 ∷ 0xE5812000 ∷ break_word ∷ []

-- The core at the breakpoint.
abbrev stored_core : ArmCore
stored_core =
    (ended_or (run_to_breakpoint host 3 0 (uploaded (digit 0) storing stub).arm) (adding, 0)).0

-- X0,c: and c
yylex-run_to_breakpoint_example :
    yylex host true 3
      (framed (write_request (digit 0) (digit 12) (program_bytes true storing))
        ++ (framed (b'c' ∷ []) ++ []))
      []
      stub
    ≡ yylex host true 3 [] [] (
        answered
          (reason_text 0)
          (at_core (acknowledged (uploaded (digit 0) storing stub)) stored_core 0))
yylex-run_to_breakpoint_example =
    yylex-run_to_breakpoint host true 3 (digit 0) (digit 12) storing stub stored_core 0 []
      (omega arith, adding-IsTyped, inl refl, omega arith)
      (
        ((omega arith, tt), omega arith),
        ((omega arith, tt), omega arith),
        refl,
        refl,
        refl,
        omega arith,
        omega arith,
        (omega arith, (omega arith, (omega arith, tt))),
      )
      refl
