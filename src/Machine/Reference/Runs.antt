-- ===== src/Machine/Reference/Runs.antt =====
-- Runs of the code against runs of the interpreter.
use progs.Prelude.{ℕ, zero, suc, ◌≡◌, refl, ap, ◌∙◌, Option, none, some}
use mathlib.Core.Path.{subst}
use progs.Util.{Target}
use progs.Memory.Outcome.{IsAllocated}
use progs.Core.{ArmCore, Run, ok, ◌>>◌, pure, M}
use progs.Core
use progs.Core.Typed.{IsTyped}
use progs.Instruction.{arm_step}
use progs.Instruction.Frame.{counted, arm_step-Ends}
use progs.Instruction.Typed.{arm_step-Typed}
use progs.Machine.Types.{ended}
use progs.Machine.Cycles
use progs.Machine.Reference.{and_then, reference_step, reference_result, reference_run}
use progs.Machine.Reference.Steps.{Agrees, step-Agrees}

-- `n` steps of the code.
abbrev pub steps : Target → ℕ → M (Unit {0})
steps t zero = pure tt
steps t (suc n) = arm_step t >> steps t n

-- A run that ends as an interpreter's run does.
abbrev Follows : Run (Unit {0}) → Option ArmCore → Type 0
Follows r none = Unit {0}
Follows r (some q) = r ≡ ok tt q

after :
    (t : Target) (n : ℕ) (p q : ArmCore) (result : ℕ) (o : Option ArmCore)
    → arm_step t p ≡ ok result q
    → Follows (steps t n q) o
    → Follows (steps t (suc n) p) o
after t n p q result none step rest = tt
after t n p q result (some q') step rest =
    ap (λ (r : Run ℕ). Core.and_then r (λ _. steps t n)) step ∙ rest

module _ (t : Target) where
  pub step-kept :
      (p q : ArmCore) (result : ℕ)
      → IsAllocated p.mem
      → IsTyped p
      → arm_step t p ≡ ok result q
      → IsAllocated q.mem × IsTyped q
  step-kept p q result w typed step =
      let (_, size, _) =
        Cycles.ended (counted t p) (arm_step t p) result q (arm_step-Ends t p) step in
      (rw size w, ended _ (arm_step t p) result q ((arm_step-Typed t).at p typed) step)

  -- One step, and then the rest of the run.
  one_more :
      (n : ℕ) (p : ArmCore) (result : ℕ) (o : Option ArmCore)
      → IsAllocated p.mem
      → IsTyped p
      → ((q : ArmCore)
          → IsAllocated q.mem
          → IsTyped q
          → Follows (steps t n q) (reference_run t n q))
      → Agrees result (arm_step t p) o
      → Follows (steps t (suc n) p) (and_then o (reference_run t n))
  one_more n p result none w typed rest agrees = tt
  one_more n p result (some q) w typed rest step =
      let (w', typed') = step-kept p q result w typed step in
      after t n p q result (reference_run t n q) step (rest q w' typed')

  run-Follows :
      (n : ℕ) (p : ArmCore)
      → IsAllocated p.mem
      → IsTyped p
      → Follows (steps t n p) (reference_run t n p)
  run-Follows zero p w typed = refl
  run-Follows (suc n) p w typed =
      one_more n p (reference_result p) (reference_step t p) w typed (run-Follows n)
        (step-Agrees t p w typed)

-- The code runs programs as the interpreter does: when the interpreter takes `n` steps from a core
-- whose memory is allocated and whose registers and bytes are of their types, and covers every one
-- of them, then `n` calls of `arm_step` end with the same core. The program may branch and loop,
-- store to the memory, also into itself, and have any conditions. The interpreter covers program
-- counters that are multiples of 4 inside the block and below 2 ^ 28 - 8, at branches, data
-- processing that stores a result, words, bytes and halves that are loaded and stored inside the
-- block, without register 15 as base or as the register that moves, and the ignored instructions.
-- A word is at a multiple of 4 and a half inside one word; bytes and halves want a little-endian host
-- or big-endian memory.
pub reference_run_lem :
    (t : Target) (n : ℕ) (p q : ArmCore)
    → IsAllocated p.mem
    → IsTyped p
    → reference_run t n p ≡ some q
    → steps t n p ≡ ok tt q
reference_run_lem t n p q w typed run =
    subst (λ (o : Option ArmCore). Follows (steps t n p) o) run (run-Follows t n p w typed)
