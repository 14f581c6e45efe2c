-- ===== src/Core/RegisterFile.antt =====
-- The sixteen register numbers of an instruction, as the core reads and writes them.
use progs.Prelude.{ℕ, ◌+◌, ◌-◌, ◌*◌, ◌/◌, ◌%◌, ◌<◌, ◌≡◌, refl, arith, ◌==◌, if◌then◌else◌}
use progs.Prelude.Word.{word_size}
use progs.Prelude.Masks.{bit_and_fffffffd}
use progs.Registers.{Registers, read_usr_register, write_usr_register, update}
use progs.Core.{
  ArmCore, ok, fault, as_pc, arm_read_register, arm_read_usr_register, arm_read_cpsr,
  arm_write_cpsr, arm_write_register, arm_write_usr_register, ◌>>=◌,
}

-- The stored word of register `i`: register 15 is the status word.
abbrev pub stored : ArmCore → ℕ → ℕ
stored p i = if i == 15 then p.reg.cpsr else p.reg.regs i

-- What reading register `i` returns.
abbrev pub reg_at : ArmCore → ℕ → ℕ
reg_at p i = if i == 15 then as_pc p.reg.cpsr else p.reg.regs i

-- The core with register `i` set to `v`.
abbrev pub put_reg : Registers → ℕ → ℕ → Registers
put_reg r i v = if i == 15 then record r { cpsr = v } else record r { regs = update r.regs i v }

abbrev pub put : ArmCore → ℕ → ℕ → ArmCore
put p i v = record p { reg = put_reg p.reg i v }

module _ (p : ArmCore) (i : ℕ) (h : i < 16) where
  pub read-ok : arm_read_usr_register i p ≡ ok (reg_at p i) p
  unfolding arm_read_usr_register read_usr_register
  read-ok = ground arith

  pub read_register-ok : arm_read_register i p ≡ ok (reg_at p i) p
  unfolding arm_read_register read_usr_register
  read_register-ok = ground arith

  pub write-ok : (v : ℕ) → arm_write_usr_register i v p ≡ ok tt (put p i v)
  unfolding arm_write_usr_register write_usr_register
  write-ok v = ground arith

  pub write_register-ok : (v : ℕ) → arm_write_register i v p ≡ ok tt (put p i v)
  unfolding arm_write_register write_usr_register
  write_register-ok v = ground arith

-- Outside the sixteen words an access is a fault.
pub read-fault : (p : ArmCore) (i : ℕ) → 15 < i → arm_read_usr_register i p ≡ fault
unfolding arm_read_usr_register read_usr_register
read-fault p i h = ground arith

pub as_pc_lem : (v : ℕ) → as_pc v ≡ (v + 4) % word_size - (v + 4) % word_size / 2 % 2 * 2
as_pc_lem v = bit_and_fffffffd ((v + 4) % word_size) (omega arith)

pub as_pc-lt : (v : ℕ) → as_pc v < word_size
as_pc-lt v = omega (arith, as_pc_lem v)

-- Writing register `i` and reading register `j` through the core: the other registers keep their
-- values, a general register gives back what was written, and register 15 gives it plus 4 with bit
-- 1 cleared.
pub read-write :
    (p : ArmCore) (i j v : ℕ)
    → i < 16
    → j < 16
    → (arm_write_usr_register i v >>= λ _. arm_read_usr_register j) p
      ≡ ok (if j == i then (if i == 15 then as_pc v else v) else reg_at p j) (put p i v)
read-write p i j v hi hj = rw (write-ok p i hi v, read-ok (put p i v) j hj) (ground arith)

-- Register 15 and the status register are one word: a write to register 15 replaces the status
-- word, and a write to the status register moves the program counter.
pub pc-cpsr :
    (p : ArmCore) (v : ℕ)
    → ((arm_write_usr_register 15 v >>= λ _. arm_read_cpsr) p ≡ ok v (put p 15 v))
      × ((arm_write_cpsr v >>= λ _. arm_read_usr_register 15) p ≡ ok (as_pc v) (put p 15 v))
unfolding arm_write_usr_register write_usr_register arm_read_cpsr arm_write_cpsr
    arm_read_usr_register read_usr_register
pc-cpsr p v = (refl, refl)
