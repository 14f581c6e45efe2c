-- ===== src/Constants/Names.antt =====
-- The names of the exceptions are told apart.
use progs.Prelude.{ℕ, zero, suc, ◌<◌, ◌≡◌, refl, arith, Option, none, some}
use progs.Constants.{Name, arm_get_exception_name, irq_loop, irq_of}

-- What send_irq sends for a name, if there is one.
abbrev pub irq_for : Option Name → Option ℕ
irq_for none = none
irq_for (some name) = irq_of name

abbrev pub exception_or_none : ℕ → Option ℕ
exception_or_none zero = none
exception_or_none (suc e) = some (suc e)

-- For the name of exception 1 to 7, send_irq sends that exception, and 0 has no name.
pub irq_of-arm_get_exception_name :
    (e : ℕ) → e < 8 → irq_for (arm_get_exception_name e) ≡ exception_or_none e
unfolding arm_get_exception_name irq_loop irq_of
irq_of-arm_get_exception_name zero h = refl
irq_of-arm_get_exception_name (suc zero) h = refl
irq_of-arm_get_exception_name (suc (suc zero)) h = refl
irq_of-arm_get_exception_name (suc (suc (suc zero))) h = refl
irq_of-arm_get_exception_name (suc (suc (suc (suc zero)))) h = refl
irq_of-arm_get_exception_name (suc (suc (suc (suc (suc zero))))) h = refl
irq_of-arm_get_exception_name (suc (suc (suc (suc (suc (suc zero)))))) h = refl
irq_of-arm_get_exception_name (suc (suc (suc (suc (suc (suc (suc zero))))))) h = refl
irq_of-arm_get_exception_name (suc (suc (suc (suc (suc (suc (suc (suc e)))))))) h =
    absurd (omega arith)
