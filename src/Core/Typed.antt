-- ===== src/Core/Typed.antt =====
-- The C types of what the core holds: every register is a 32-bit word and every byte of the memory
-- is a byte, and the accesses of arm_core.c keep them so.
use progs.Prelude.{ℕ, ◌+◌, ◌<◌, Bool, true, false, Option, none, some, if◌then◌else◌}
use progs.Prelude.Word.{u32}
use progs.Prelude.Range.{IsWord, u32-IsWord, bit_and-IsWord}
use progs.Memory.Layout.{IsBytes}
use progs.Registers.{Registers}
use progs.Core.{ArmCore, Run, ok, fault, M, pure, and_then, ◌>>=◌, gets, as_pc}

abbrev pub AreWords : Registers → Type 0
AreWords r = ((i : ℕ) → i < 15 → IsWord (r.regs i)) × IsWord r.cpsr

abbrev pub IsTyped : ArmCore → Type 0
IsTyped p = AreWords p.reg × IsBytes p.mem

-- A run that ends gives a value of its type, and a typed core.
abbrev pub EndsTyped : {A : Type 0} → (A → Type 0) → Run A → Type 0
EndsTyped P (ok a q) = P a × IsTyped q
EndsTyped P fault = Unit {0}

pub record Typed {A : Type 0} (P : A → Type 0) (m : M A) : Type 0 where
  pub at : (p : ArmCore) → IsTyped p → EndsTyped P (m p)

-- What values are: nothing is asked of `tt`, and a word that was not read is none.
abbrev pub IsUnit : Unit {0} → Type 0
IsUnit u = Unit {0}

abbrev pub IsRead : Option ℕ → Type 0
IsRead none = Unit {0}
IsRead (some v) = IsWord v

module _ {A B : Type 0} (P : A → Type 0) (Q : B → Type 0) where
  continued :
      (r : Run A) (k : A → M B)
      → EndsTyped P r
      → ((a : A) → P a → Typed Q (k a))
      → EndsTyped Q (and_then r k)
  continued (ok a q) k (h, typed) next = (next a h).at q typed
  continued fault k h next = tt

  pub bind-Typed :
      (m : M A) (k : A → M B) → Typed P m → ((a : A) → P a → Typed Q (k a)) → Typed Q (m >>= k)
  bind-Typed m k h next = record { at = λ p typed. continued (m p) k (h.at p typed) next }

module _ {B : Type 0} (Q : B → Type 0) where
  pub word_bind :
      (m : M ℕ) (k : ℕ → M B)
      → Typed IsWord m
      → ((v : ℕ) → IsWord v → Typed Q (k v))
      → Typed Q (m >>= k)
  word_bind = bind-Typed IsWord Q

  pub unit_bind :
      (m : M (Unit {0})) (k : Unit {0} → M B)
      → Typed IsUnit m
      → ((u : Unit {0}) → Typed Q (k u))
      → Typed Q (m >>= k)
  unit_bind m k h next = bind-Typed IsUnit Q m k h (λ u is. next u)

  pub read_bind :
      (m : M (Option ℕ)) (k : Option ℕ → M B)
      → Typed IsRead m
      → ((o : Option ℕ) → IsRead o → Typed Q (k o))
      → Typed Q (m >>= k)
  read_bind = bind-Typed IsRead Q

  -- What the core is asked for in passing need not be a word.
  pub gets_bind :
      (f : ArmCore → ℕ) (k : ℕ → M B) → ((v : ℕ) → Typed Q (k v)) → Typed Q (gets f >>= k)
  gets_bind f k next =
      bind-Typed (λ v. Unit {0}) Q (gets f) k (record { at = λ p typed. (tt, typed) })
        (λ v is. next v)

  pub if-Typed : (b : Bool) (m n : M B) → Typed Q m → Typed Q n → Typed Q (if b then m else n)
  if-Typed true m n h k = h
  if-Typed false m n h k = k

pub IsWord-pure : (v : ℕ) → IsWord v → Typed IsWord (pure v)
IsWord-pure v h = record { at = λ p typed. (h, typed) }

pub IsRead-pure : (o : Option ℕ) → IsRead o → Typed IsRead (pure o)
IsRead-pure o h = record { at = λ p typed. (h, typed) }

pub IsUnit-pure : (u : Unit {0}) → Typed IsUnit (pure u)
IsUnit-pure u = record { at = λ p typed. (tt, typed) }

pub as_pc-IsWord : (v : ℕ) → IsWord (as_pc v)
as_pc-IsWord v = bit_and-IsWord (u32 (v + 4)) 0xFFFFFFFD (u32-IsWord (v + 4))
