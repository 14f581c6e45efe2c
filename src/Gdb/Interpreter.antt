-- ===== src/Gdb/Interpreter.antt =====
-- The command c of gdb_protocol.c against the interpreter of Machine/Reference.
use progs.Prelude.{
  ℕ, zero, suc, ◌%◌, ◌<◌, ◌≡◌, Bool, Bool-cases, false, arith, inl, inr, Option, none, some, List,
  if◌then◌else◌,
}
use mathlib.Core.Path.{subst}
use progs.Util.{Target}
use progs.Memory.Outcome.{IsAllocated, Fits}
use progs.Memory.Layout.{word_at}
use progs.Core.{ArmCore, ok}
use progs.Core.Typed.{IsTyped}
use progs.Instruction.{arm_step}
use progs.Machine.Reference.{can_fetch, and_then, reference_step, reference_result}
use progs.Machine.Reference.Steps.{Agrees, step_fetched}
use progs.Machine.Reference.Runs.{step-kept}
use progs.Gdb.{Gdb, gdb_send_stop_reason}
use progs.Gdb.Handlers.{cont}
use progs.Gdb.Continue.{Sees-word, Until, stops, goes_on, is_breakpoint, cont_lem, Sees}

-- The interpreter until the first breakpoint, which it does not execute: the core there, and the result
-- of the last step, which is `result` if there is none.
abbrev pub run_to_breakpoint : Target → ℕ → (result : ℕ) → ArmCore → Option (ArmCore × ℕ)
run_to_breakpoint t zero result p = none
run_to_breakpoint t (suc n) result p =
    if can_fetch p
    then (if is_breakpoint (word_at p.mem p.reg.cpsr)
        then some (p, result)
        else and_then (reference_step t p) (run_to_breakpoint t n (reference_result p)))
    else none

-- The stub with another core, and a result of its last step.
abbrev pub at_core : Gdb → ArmCore → ℕ → Gdb
at_core g q result = record g { arm = q; target_exception = result }

module _ (t : Target) where
  -- Fewer than `n` steps to a breakpoint at the interpreter's core, where there is one.
  abbrev Stops : (n : ℕ) → Gdb → Option (ArmCore × ℕ) → Type 0
  Stops n g none = Unit {0}
  Stops n g (some (q, result)) = (k : ℕ) × (k < n) × Until t (at_core g q result) k g

  earlier :
      (n word result : ℕ) (g : Gdb) (q : ArmCore) (o : Option (ArmCore × ℕ))
      → Sees t g word
      → is_breakpoint word ≡ false
      → arm_step t g.arm ≡ ok result q
      → Stops n (at_core g q result) o
      → Stops (suc n) g o
  earlier n word result g q none sees not_here step rest = tt
  earlier n word result g q (some (q', last)) sees not_here step (k, few, run) =
      (suc k, omega arith, goes_on word result q sees not_here step run)

  one_more :
      (n word result : ℕ) (g : Gdb) (o : Option ArmCore)
      → IsAllocated g.arm.mem
      → IsTyped g.arm
      → ((h : Gdb)
          → IsAllocated h.arm.mem
          → IsTyped h.arm
          → Stops n h (run_to_breakpoint t n h.target_exception h.arm))
      → Sees t g word
      → is_breakpoint word ≡ false
      → Agrees result (arm_step t g.arm) o
      → Stops (suc n) g (and_then o (run_to_breakpoint t n result))
  one_more n word result g none w typed rest sees not_here agrees = tt
  one_more n word result g (some q) w typed rest sees not_here step =
      let (w', typed') = step-kept t g.arm q result w typed step in
      earlier n word result g q (run_to_breakpoint t n result q) sees not_here step
        (rest (at_core g q result) w' typed')

  run-Stops :
      (n : ℕ) (g : Gdb)
      → IsAllocated g.arm.mem
      → IsTyped g.arm
      → Stops n g (run_to_breakpoint t n g.target_exception g.arm)
  run-Stops zero g w typed = tt
  run-Stops (suc n) g w typed = elim (Bool-cases (can_fetch g.arm)) [
    | inr can ↦ rw can tt
    | inl can ↦
        let word = word_at g.arm.mem g.arm.reg.cpsr in
        let aligned : g.arm.reg.cpsr % 4 ≡ 0 = ground arith in
        let fits : Fits g.arm.mem g.arm.reg.cpsr 4 = ground arith in
        let small : g.arm.reg.cpsr < 268435448 = ground arith in
        let sees = Sees-word t g w typed.1 (omega arith) aligned fits in
        elim (Bool-cases (is_breakpoint word)) [
          | inl here ↦ rw (can, here) (0, omega arith, stops word sees here)
          | inr not_here ↦
              rw (can, not_here)
                (one_more n word (reference_result g.arm) g _ w typed (run-Stops n) sees not_here
                  (step_fetched t g.arm w typed can))
        ]
  ]

-- The command c does what the interpreter does until the first breakpoint: when the interpreter
-- meets one within the fuel, and covers all steps before it, the command ends, reports the result of
-- the last step, and leaves the core that the interpreter has there. Only the core and that result
-- have changed before the report. At the start the memory is allocated and the registers and bytes
-- are of their types.
pub cont-run_to_breakpoint :
    (t : Target) (target_big_endian : Bool) (fuel : ℕ) (data' : List ℕ) (g : Gdb) (q : ArmCore)
    (result : ℕ)
    → IsAllocated g.arm.mem
    → IsTyped g.arm
    → run_to_breakpoint t fuel g.target_exception g.arm ≡ some (q, result)
    → cont t target_big_endian fuel data' g ≡ gdb_send_stop_reason (at_core g q result)
cont-run_to_breakpoint t target_big_endian fuel data' g q result w typed run =
    let (n, few, until) =
      subst (λ (o : Option (ArmCore × ℕ)). Stops t fuel g o) run (run-Stops t fuel g w typed) in
    cont_lem t target_big_endian (at_core g q result) g n fuel data' until few
