-- ===== src/Machine/Cycles.antt =====
-- What every interleaving of steps and interrupts keeps.
use progs.Prelude.{ℕ, suc, ◌+◌, ◌≡◌, ◌<◌, refl, ap, ◌∙◌, arith}
use mathlib.Core.Path.{subst}
use progs.Prelude.Word.{word_size, u32}
use progs.Util.{Target}
use progs.Core.{ArmCore, Run, ok}
use progs.Core.Frame.{Ends, SameFrame}
use progs.Exception.{arm_exception}
use progs.Instruction.{arm_step}
use progs.Instruction.Frame.{counted, arm_step-Ends, arm_exception-Keeps}
use progs.Machine.{Runs, start, stepped, interrupted}

pub ended :
    {A : Type 0} (p : ArmCore) (r : Run A) (a : A) (q : ArmCore)
    → Ends p r
    → r ≡ ok a q
    → SameFrame p q
ended p r a q h same = subst (λ (x : Run _). Ends p x) same h

next_count : (c n : ℕ) → u32 (u32 (c + n) + 1) ≡ u32 (c + suc n)
next_count c n = omega arith

-- However steps and interrupts alternate, the cycle count is the number of steps, modulo 2 ^ 32,
-- past what it was, and the memory keeps its size and its byte order. The count starts as a word.
pub Runs_lem :
    (t : Target) (p q : ArmCore) (n : ℕ)
    → p.cycle_count < word_size
    → Runs t p n q
    → (q.cycle_count ≡ u32 (p.cycle_count + n))
      × (q.mem.size ≡ p.mem.size)
      × (q.mem.is_big_endian ≡ p.mem.is_big_endian)
Runs_lem t p _ _ word start = (omega arith, refl, refl)
Runs_lem t p q' _ word (stepped {n} q result run step) =
    let (c, s, e) = Runs_lem t p q n word run in
    let (c', s', e') = ended (counted t q) (arm_step t q) result q' (arm_step-Ends t q) step in
    (c' ∙ ap (λ (k : ℕ). u32 (k + 1)) c ∙ next_count p.cycle_count n, s' ∙ s, e' ∙ e)
Runs_lem t p q' _ word (interrupted {n} q irq run raised) =
    let (c, s, e) = Runs_lem t p q n word run in
    let (c', s', e') =
      ended q (arm_exception irq q) tt q' ((arm_exception-Keeps irq).at q) raised in
    (c' ∙ c, s' ∙ s, e' ∙ e)
