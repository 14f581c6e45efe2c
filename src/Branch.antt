-- ===== src/Branch.antt =====
-- arm_branch_other.c: branches, `swi` and `mrs`.
pub mod Offset
use progs.Prelude.{ℕ, ◌+◌, ◌*◌, ◌%◌, bit_or, ◌==◌, if◌then◌else◌, is_set}
use progs.Prelude.Word.{u32, ◌<<<◌, ◌>>>◌}
use progs.Util.{get_bit, get_bits}
use progs.Exception.{undefined_instruction, software_interrupt}
use progs.Core.{
  M, pure, ◌>>=◌, ◌>>◌, arm_read_usr_register, arm_write_usr_register, arm_read_cpsr, arm_read_spsr,
}

-- `SE`, the offset in bytes as a word.
unfoldable pub branch_offset : ℕ → ℕ
branch_offset ins =
    let si = ins % 16777216 in
    let b24 = (si >>> 23) % 2 in
    if is_set b24 then u32 (bit_or si 0x3F000000 <<< 2) else u32 (si <<< 2)

unfoldable pub b_bl_instr : ℕ → M ℕ
b_bl_instr ins = do
  let l = (ins >>> 24) % 2
  pc ← arm_read_usr_register 15
  if is_set l then arm_write_usr_register 14 pc else pure tt
  arm_write_usr_register 15 (u32 (pc + branch_offset ins))
  pure 0

unfoldable pub arm_branch : ℕ → M ℕ
unfolding b_bl_instr
arm_branch ins = if is_set (get_bit ins 25) then b_bl_instr ins else pure undefined_instruction

-- `exits` is the call of `exit(0)`, which ends the simulator.
pub data Ending : Type 0 where
  returns : ℕ → Ending
  exits : Ending

pub arm_coprocessor_others_swi : ℕ → Ending
arm_coprocessor_others_swi ins =
    if is_set (get_bit ins 24)
    then (if ins % 16777216 == 0x123456 then exits else returns software_interrupt)
    else returns undefined_instruction

unfoldable pub mrs_instr : ℕ → M ℕ
mrs_instr ins = do
  let r = get_bit ins 22
  let rd = get_bits ins 15 12
  v ← if is_set r then arm_read_spsr else arm_read_cpsr
  arm_write_usr_register rd v
  pure 0

pub arm_miscellaneous : ℕ → M ℕ
arm_miscellaneous ins = pure undefined_instruction
