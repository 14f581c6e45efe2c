-- ===== src/Core/Fetch.antt =====
-- `arm_fetch`: which word it reads, and where it leaves the program counter.
use progs.Prelude.{ℕ, ◌+◌, ◌-◌, ◌*◌, ◌/◌, ◌%◌, ◌<◌, ◌≡◌, none, some, arith, ap, ◌∙◌, refl}
use progs.Prelude.Word.{word_size, u32, sub32}
use progs.Util.{Target}
use progs.Registers
use progs.Memory.{done, refused, fault as outside, memory_read_word}
use progs.Memory.Outcome.{IsAllocated, Fits}
use progs.Memory.Layout.{IsBytes, word_at, read_word-done}
use progs.Core.{
  ArmCore, ok, fault, as_pc, of_access, arm_read_register, arm_read_word, arm_write_register,
  arm_fetch,
}
use progs.Core.RegisterFile.{as_pc_lem}

-- The address that the next fetch reads.
abbrev pub fetch_address : ArmCore → ℕ
fetch_address p = sub32 (as_pc p.reg.cpsr) 4

-- The core after a fetch.
abbrev pub fetched : ArmCore → ArmCore
fetched p = record p {
  cycle_count = u32 (p.cycle_count + 1);
  reg = record (p.reg) { cpsr = u32 (fetch_address p + 4) };
}

-- It is the stored program counter with bit 1 cleared.
pub fetch_address_lem :
    (p : ArmCore) → p.reg.cpsr < word_size → fetch_address p ≡ p.reg.cpsr - p.reg.cpsr / 2 % 2 * 2
fetch_address_lem p h = omega (arith, as_pc_lem p.reg.cpsr)

pub aligned_address :
    (p : ArmCore) → p.reg.cpsr < word_size → p.reg.cpsr % 4 ≡ 0 → fetch_address p ≡ p.reg.cpsr
aligned_address p h e = omega (arith, fetch_address_lem p h)

module _ (t : Target) (p : ArmCore) where
  pub fetch-done :
      (v : ℕ)
      → memory_read_word t p.mem (fetch_address p) ≡ done v
      → arm_fetch t p ≡ ok (some v) (fetched p)
  unfolding arm_fetch arm_read_word arm_read_register arm_write_register Registers.read_usr_register
      Registers.write_usr_register
  fetch-done v e = rw (e, of_access)

  pub fetch-refused :
      memory_read_word t p.mem (fetch_address p) ≡ refused → arm_fetch t p ≡ ok none (fetched p)
  unfolding arm_fetch arm_read_word arm_read_register arm_write_register Registers.read_usr_register
      Registers.write_usr_register
  fetch-refused e = rw (e, of_access)

  pub fetch-outside : memory_read_word t p.mem (fetch_address p) ≡ outside → arm_fetch t p ≡ fault
  unfolding arm_fetch arm_read_word arm_read_register arm_write_register Registers.read_usr_register
      Registers.write_usr_register
  fetch-outside e = rw (e, of_access) refl

  -- With an aligned program counter inside the memory block the fetch returns the word at the
  -- program counter, counts a cycle and adds 4 to the program counter; memory and the general
  -- registers stay.
  pub arm_fetch_lem :
      IsAllocated p.mem
      → IsBytes p.mem
      → p.reg.cpsr < word_size - 4
      → p.reg.cpsr % 4 ≡ 0
      → Fits p.mem p.reg.cpsr 4
      → arm_fetch t p
        ≡ ok (some (word_at p.mem p.reg.cpsr)) (record p {
          cycle_count = u32 (p.cycle_count + 1);
          reg = record (p.reg) { cpsr = p.reg.cpsr + 4 };
        })
  arm_fetch_lem w bytes small aligned fits =
      let here : fetch_address p ≡ p.reg.cpsr = aligned_address p (omega arith) aligned in
      fetch-done (word_at p.mem p.reg.cpsr)
        (rw here (read_word-done t p.mem p.reg.cpsr w (omega arith) bytes aligned fits))
      ∙ ap
          (λ (c : ℕ).
            ok (some (word_at p.mem p.reg.cpsr)) (record p {
              cycle_count = u32 (p.cycle_count + 1);
              reg = record (p.reg) { cpsr = c };
            }))
          (omega (arith, aligned_address p (omega arith) aligned))
