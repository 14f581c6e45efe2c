-- ===== src/Machine/Types.antt =====
-- What the registers and the memory hold after a run that ends.
use progs.Prelude.{◌≡◌}
use mathlib.Core.Path.{subst}
use progs.Core.{ArmCore, Run, ok}
use progs.Core.Typed.{IsTyped, EndsTyped}

pub ended :
    {A : Type 0} (P : A → Type 0) (r : Run A) (a : A) (q : ArmCore)
    → EndsTyped P r
    → r ≡ ok a q
    → IsTyped q
ended P r a q h same = (subst (λ (x : Run _). EndsTyped P x) same h).1
