-- ===== src/Core/Words.antt =====
-- The accesses of arm_core.c keep registers words and the bytes of the memory bytes, and read words.
use progs.Prelude.{
  ℕ, inl, inr, Bool-cases, arith, ltb, ltb→lt, ◌==◌, Option, none, some, if◌then◌else◌,
}
use progs.Util.{Target}
use progs.Memory
use progs.Memory.{
  Memory, Access, load, store, update, allocated, memory_read_byte, memory_read_half,
  memory_read_word, memory_write_byte, memory_write_half, memory_write_word, reverse_endianess,
}
use progs.Registers.{Registers, read_usr_register, write_usr_register}
use progs.Core.{
  ArmCore, pure, ◌>>=◌, some_or_fault, put_registers, put_memory, as_pc, of_access,
  arm_current_mode_has_spsr, arm_read_register, arm_read_usr_register, arm_read_cpsr, arm_read_spsr,
  arm_write_register, arm_write_usr_register, arm_write_cpsr, arm_read_byte, arm_read_half,
  arm_read_word, arm_write_byte, arm_write_half, arm_write_word,
}
use progs.Prelude.Range.{
  IsWord, u32-IsWord, sub32-IsWord, not32-IsWord, bit_and-IsWord, bit_or-IsWord, bit_xor-IsWord,
  if-IsWord, zero-IsWord, one-IsWord, byte-IsWord, low_byte-IsWord, low_half-IsWord, range_rules,
}
use progs.Core.Typed.{
  AreWords, IsTyped, EndsTyped, Typed, IsUnit, IsRead, word_bind, unit_bind, read_bind, gets_bind,
  if-Typed, IsWord-pure, IsRead-pure, IsUnit-pure, as_pc-IsWord,
}
use progs.Memory.Typed.{
  EndsWord, EndsBytes, read_byte-GivesWord, read_half-GivesWord, read_word-GivesWord,
  write_byte-GivesBytes, write_half-GivesBytes, write_word-GivesBytes,
}

-- The register file.
abbrev StillWords : Option Registers → Type 0
StillWords none = Unit {0}
StillWords (some r) = AreWords r

read_usr_register-IsRead : (r : Registers) (reg : ℕ) → AreWords r → IsRead (read_usr_register r reg)
unfolding read_usr_register
read_usr_register-IsRead r reg (regs, cpsr) = elim (Bool-cases (ltb reg 15)) [
  | inl h ↦ rw h (regs reg (ltb→lt reg 15 h))
  | inr h ↦ elim (Bool-cases (reg == 15)) [ inl k ↦ rw (h, k) cpsr | inr k ↦ rw (h, k) tt ]
]

write_usr_register-StillWords :
    (r : Registers) (reg value : ℕ)
    → AreWords r
    → IsWord value
    → StillWords (write_usr_register r reg value)
unfolding write_usr_register
write_usr_register-StillWords r reg value (regs, cpsr) word = elim (Bool-cases (ltb reg 15)) [
  | inl h ↦ rw h (λ j low. if-IsWord (j == reg) value (r.regs j) word (regs j low), cpsr)
  | inr h ↦ elim (Bool-cases (reg == 15)) [ inl k ↦ rw (h, k) (regs, word) | inr k ↦ rw (h, k) tt ]
]

read_at :
    (reg : ℕ) (p : ArmCore) (o : Option ℕ)
    → IsRead o
    → IsTyped p
    → EndsTyped IsWord
        ((some_or_fault o >>= λ value. pure (if reg == 15 then as_pc value else value)) p)
read_at reg p none h typed = tt
read_at reg p (some v) h typed = (if-IsWord (reg == 15) (as_pc v) v (as_pc-IsWord v) h, typed)

put_at :
    (p : ArmCore) (o : Option Registers)
    → StillWords o
    → IsTyped p
    → EndsTyped IsUnit (put_registers o p)
put_at p none h typed = tt
put_at p (some r) h (regs, bytes) = (tt, (h, bytes))

pub arm_read_usr_register-Typed : (reg : ℕ) → Typed IsWord (arm_read_usr_register reg)
unfolding arm_read_usr_register
arm_read_usr_register-Typed reg = record {
  at = λ p typed.
      read_at reg p (read_usr_register p.reg reg) (read_usr_register-IsRead p.reg reg typed.0)
        typed;
}

pub arm_read_register-Typed : (reg : ℕ) → Typed IsWord (arm_read_register reg)
unfolding arm_read_register
arm_read_register-Typed reg = record {
  at = λ p typed.
      read_at reg p (read_usr_register p.reg reg) (read_usr_register-IsRead p.reg reg typed.0)
        typed;
}

module _ (reg value : ℕ) (word : IsWord value) where
  pub arm_write_usr_register-Typed : Typed IsUnit (arm_write_usr_register reg value)
  unfolding arm_write_usr_register
  arm_write_usr_register-Typed = record {
    at = λ p typed.
        put_at p (write_usr_register p.reg reg value)
          (write_usr_register-StillWords p.reg reg value typed.0 word) typed;
  }

  pub arm_write_register-Typed : Typed IsUnit (arm_write_register reg value)
  unfolding arm_write_register
  arm_write_register-Typed = record {
    at = λ p typed.
        put_at p (write_usr_register p.reg reg value)
          (write_usr_register-StillWords p.reg reg value typed.0 word) typed;
  }

pub arm_read_cpsr-Typed : Typed IsWord arm_read_cpsr
unfolding arm_read_cpsr
arm_read_cpsr-Typed = record { at = λ p ((regs, cpsr), bytes). (cpsr, ((regs, cpsr), bytes)) }

pub arm_read_spsr-Typed : Typed IsWord arm_read_spsr
unfolding arm_read_spsr
arm_read_spsr-Typed = record { at = λ p typed. (zero-IsWord, typed) }

pub arm_current_mode_has_spsr-Typed : Typed IsWord arm_current_mode_has_spsr
unfolding arm_current_mode_has_spsr
arm_current_mode_has_spsr-Typed = record { at = λ p typed. (zero-IsWord, typed) }

pub arm_write_cpsr-Typed : (value : ℕ) → IsWord value → Typed IsUnit (arm_write_cpsr value)
unfolding arm_write_cpsr
arm_write_cpsr-Typed value word = record {
  at = λ p ((regs, cpsr), bytes). (tt, ((regs, word), bytes));
}

-- The memory.
of_access_at :
    (p : ArmCore) (a : Access ℕ) → EndsWord a → IsTyped p → EndsTyped IsRead (of_access a p)
of_access_at p (Memory.done v) h typed = (h, typed)
of_access_at p Memory.refused h typed = (tt, typed)
of_access_at p Memory.fault h typed = tt

put_memory_at :
    (p : ArmCore) (a : Access Memory) → EndsBytes a → IsTyped p → EndsTyped IsWord (put_memory a p)
put_memory_at p (Memory.done m) h (words, bytes) = (zero-IsWord, (words, h))
put_memory_at p Memory.refused h typed = (omega arith, typed)
put_memory_at p Memory.fault h typed = tt

module _ (t : Target) (address : ℕ) where
  pub arm_read_byte-Typed : Typed IsRead (arm_read_byte t address)
  unfolding arm_read_byte
  arm_read_byte-Typed = record {
    at = λ p typed. of_access_at p _ (read_byte-GivesWord t p.mem address typed.1).is typed;
  }

  pub arm_read_half-Typed : Typed IsRead (arm_read_half t address)
  unfolding arm_read_half
  arm_read_half-Typed = record {
    at = λ p typed. of_access_at p _ (read_half-GivesWord t p.mem address).is typed;
  }

  pub arm_read_word-Typed : Typed IsRead (arm_read_word t address)
  unfolding arm_read_word
  arm_read_word-Typed = record {
    at = λ p typed. of_access_at p _ (read_word-GivesWord t p.mem address).is typed;
  }

  module _ (value : ℕ) where
    pub arm_write_byte-Typed : Typed IsWord (arm_write_byte t address value)
    unfolding arm_write_byte
    arm_write_byte-Typed = record {
      at = λ p typed.
          put_memory_at p _ (write_byte-GivesBytes t p.mem address value typed.1).is typed;
    }

    pub arm_write_half-Typed : Typed IsWord (arm_write_half t address value)
    unfolding arm_write_half
    arm_write_half-Typed = record {
      at = λ p typed.
          put_memory_at p _ (write_half-GivesBytes t p.mem address value typed.1).is typed;
    }

    pub arm_write_word-Typed : Typed IsWord (arm_write_word t address value)
    unfolding arm_write_word
    arm_write_word-Typed = record {
      at = λ p typed.
          put_memory_at p _ (write_word-GivesBytes t p.mem address value typed.1).is typed;
    }

pub ruleset typed_rules = (
  range_rules, word_bind, unit_bind, read_bind, gets_bind, if-Typed, IsWord-pure, IsRead-pure,
  IsUnit-pure, arm_read_usr_register-Typed, arm_read_register-Typed, arm_write_usr_register-Typed,
  arm_write_register-Typed, arm_read_cpsr-Typed, arm_read_spsr-Typed,
  arm_current_mode_has_spsr-Typed, arm_write_cpsr-Typed, arm_read_byte-Typed, arm_read_half-Typed,
  arm_read_word-Typed, arm_write_byte-Typed, arm_write_half-Typed, arm_write_word-Typed,
)
