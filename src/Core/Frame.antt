-- ===== src/Core/Frame.antt =====
-- What no access of the core changes: the cycle count, and the size and byte order of the memory.
use progs.Prelude.{ℕ, ◌≡◌, refl, ◌∙◌, Bool, true, false, Option, none, some, if◌then◌else◌}
use progs.Util.{Target}
use progs.Memory.{
  Memory, Access, done, refused, memory_read_byte, memory_read_half, memory_read_word,
  memory_write_byte, memory_write_half, memory_write_word,
}
use progs.Memory
use progs.Memory.Frame.{
  EndsAccess, memory_write_byte-EndsAccess, memory_write_half-EndsAccess,
  memory_write_word-EndsAccess,
}
use progs.Registers.{Registers}
use progs.Core.{
  ArmCore, Run, ok, fault, M, pure, and_then, ◌>>=◌, gets, some_or_fault, put_registers, put_memory,
  of_access, arm_current_mode_has_spsr, arm_read_register, arm_read_usr_register, arm_read_cpsr,
  arm_read_spsr, arm_write_register, arm_write_usr_register, arm_write_cpsr, arm_read_byte,
  arm_read_half, arm_read_word, arm_write_byte, arm_write_half, arm_write_word,
}

abbrev pub SameFrame : ArmCore → ArmCore → Type 0
SameFrame p q =
    (q.cycle_count ≡ p.cycle_count)
    × (q.mem.size ≡ p.mem.size)
    × (q.mem.is_big_endian ≡ p.mem.is_big_endian)

-- A run from `p` that ends with the same frame, or outside an array.
abbrev pub Ends : {A : Type 0} → ArmCore → Run A → Type 0
Ends p (ok a q) = SameFrame p q
Ends p fault = Unit {0}

pub record Keeps {A : Type 0} (m : M A) : Type 0 where
  pub at : (p : ArmCore) → Ends p (m p)

module _ {A B : Type 0} where
  pub continued :
      (p : ArmCore) (r : Run A) (k : A → M B)
      → Ends p r
      → ((a : A) → Keeps (k a))
      → Ends p (and_then r k)
  continued p (ok a q) k (c, s, e) next = extended (k a q) ((next a).at q)
    where
      extended : (r : Run B) → Ends q r → Ends p r
      extended (ok b q') (c', s', e') = (c' ∙ c, s' ∙ s, e' ∙ e)
      extended fault h = tt
  continued p fault k h next = tt

  pub bind-Keeps : (m : M A) (k : A → M B) → Keeps m → ((a : A) → Keeps (k a)) → Keeps (m >>= k)
  bind-Keeps m k h next = record { at = λ p. continued p (m p) k (h.at p) next }

unchanged : (p : ArmCore) → SameFrame p p
unchanged p = (refl, refl, refl)

module _ {A : Type 0} where
  pub pure-Keeps : (a : A) → Keeps (pure a)
  pure-Keeps a = record { at = unchanged }

  pub gets-Keeps : (f : ArmCore → A) → Keeps (gets f)
  gets-Keeps f = record { at = unchanged }

  pub if-Keeps : (b : Bool) (m n : M A) → Keeps m → Keeps n → Keeps (if b then m else n)
  if-Keeps true m n h k = h
  if-Keeps false m n h k = k

  pub some_or_fault-Keeps : (o : Option A) → Keeps (some_or_fault o)
  some_or_fault-Keeps none = record { at = λ p. tt }
  some_or_fault-Keeps (some a) = record { at = unchanged }

  of_access-Ends : (p : ArmCore) (a : Access A) → Ends p (of_access a p)
  of_access-Ends p (done a) = unchanged p
  of_access-Ends p refused = unchanged p
  of_access-Ends p Memory.fault = tt

pub put_registers-Keeps : (o : Option Registers) → Keeps (put_registers o)
put_registers-Keeps none = record { at = λ p. tt }
put_registers-Keeps (some r) = record { at = λ p. (refl, refl, refl) }

pub ruleset keeps_rules =
    (pure-Keeps, gets-Keeps, if-Keeps, some_or_fault-Keeps, put_registers-Keeps, bind-Keeps)

put_memory-Ends : (p : ArmCore) (a : Access Memory) → EndsAccess p.mem a → Ends p (put_memory a p)
put_memory-Ends p (done n) (s, e) = (refl, s, e)
put_memory-Ends p refused h = (refl, refl, refl)
put_memory-Ends p Memory.fault h = tt

-- The accesses of the core.
pub arm_read_usr_register-Keeps : (reg : ℕ) → Keeps (arm_read_usr_register reg)
unfolding arm_read_usr_register
arm_read_usr_register-Keeps reg = search keeps_rules

pub arm_read_register-Keeps : (reg : ℕ) → Keeps (arm_read_register reg)
unfolding arm_read_register
arm_read_register-Keeps reg = search keeps_rules

pub arm_write_usr_register-Keeps : (reg value : ℕ) → Keeps (arm_write_usr_register reg value)
unfolding arm_write_usr_register
arm_write_usr_register-Keeps reg value = search keeps_rules

pub arm_write_register-Keeps : (reg value : ℕ) → Keeps (arm_write_register reg value)
unfolding arm_write_register
arm_write_register-Keeps reg value = search keeps_rules

pub arm_read_cpsr-Keeps : Keeps arm_read_cpsr
unfolding arm_read_cpsr
arm_read_cpsr-Keeps = search keeps_rules

pub arm_read_spsr-Keeps : Keeps arm_read_spsr
unfolding arm_read_spsr
arm_read_spsr-Keeps = search keeps_rules

pub arm_current_mode_has_spsr-Keeps : Keeps arm_current_mode_has_spsr
unfolding arm_current_mode_has_spsr
arm_current_mode_has_spsr-Keeps = search keeps_rules

pub arm_write_cpsr-Keeps : (value : ℕ) → Keeps (arm_write_cpsr value)
unfolding arm_write_cpsr
arm_write_cpsr-Keeps value = record { at = λ p. (refl, refl, refl) }

module _ (t : Target) (address : ℕ) where
  pub arm_read_byte-Keeps : Keeps (arm_read_byte t address)
  unfolding arm_read_byte
  arm_read_byte-Keeps = record { at = λ p. of_access-Ends p (memory_read_byte t p.mem address) }

  pub arm_read_half-Keeps : Keeps (arm_read_half t address)
  unfolding arm_read_half
  arm_read_half-Keeps = record { at = λ p. of_access-Ends p (memory_read_half t p.mem address) }

  pub arm_read_word-Keeps : Keeps (arm_read_word t address)
  unfolding arm_read_word
  arm_read_word-Keeps = record { at = λ p. of_access-Ends p (memory_read_word t p.mem address) }

  pub arm_write_byte-Keeps : (value : ℕ) → Keeps (arm_write_byte t address value)
  unfolding arm_write_byte
  arm_write_byte-Keeps value = record {
    at = λ p.
        put_memory-Ends p (memory_write_byte t p.mem address value)
          (memory_write_byte-EndsAccess t p.mem address value);
  }

  pub arm_write_half-Keeps : (value : ℕ) → Keeps (arm_write_half t address value)
  unfolding arm_write_half
  arm_write_half-Keeps value = record {
    at = λ p.
        put_memory-Ends p (memory_write_half t p.mem address value)
          (memory_write_half-EndsAccess t p.mem address value);
  }

  pub arm_write_word-Keeps : (value : ℕ) → Keeps (arm_write_word t address value)
  unfolding arm_write_word
  arm_write_word-Keeps value = record {
    at = λ p.
        put_memory-Ends p (memory_write_word t p.mem address value)
          (memory_write_word-EndsAccess t p.mem address value);
  }

pub ruleset access_rules = (
  keeps_rules, arm_read_usr_register-Keeps, arm_read_register-Keeps, arm_write_usr_register-Keeps,
  arm_write_register-Keeps, arm_read_cpsr-Keeps, arm_read_spsr-Keeps,
  arm_current_mode_has_spsr-Keeps, arm_write_cpsr-Keeps, arm_read_byte-Keeps, arm_read_half-Keeps,
  arm_read_word-Keeps, arm_write_byte-Keeps, arm_write_half-Keeps, arm_write_word-Keeps,
)
