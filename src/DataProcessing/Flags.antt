-- ===== src/DataProcessing/Flags.antt =====
-- `write_flags` and `update_flags` leave the status word as it is.
use progs.Prelude.{ℕ, ◌<◌, ◌≡◌, arith, if◌then◌else◌, ltb}
use progs.Core.{
  ArmCore, ok, fault, arm_read_cpsr, arm_write_cpsr, arm_read_spsr, arm_current_mode_has_spsr,
}
use progs.Core.RegisterFile.{read-ok, read-fault}
use progs.DataProcessing.{write_flags, update_flags}

-- Given one of the sixteen registers, `write_flags` changes nothing; given any other number, it
-- reads outside the register file.
pub write_flags_lem :
    (p : ArmCore) (rdest c v : ℕ)
    → write_flags rdest c v p ≡ (if ltb rdest 16 then ok tt p else fault)
unfolding write_flags arm_read_cpsr arm_write_cpsr
write_flags_lem p rdest c v = ground (arith, read-ok p rdest, read-fault p rdest)

-- `update_flags(p, S, Rdest, …)`, with an S of one bit and one of the sixteen registers, leaves the
-- whole core as it was: it neither sets nor clears a flag, whatever the computed carry and overflow
-- are.
pub update_flags_lem :
    (p : ArmCore) (s rdest c v : ℕ) → s < 2 → rdest < 16 → update_flags s rdest c v p ≡ ok tt p
unfolding update_flags arm_current_mode_has_spsr arm_write_cpsr arm_read_spsr
update_flags_lem p s rdest c v hs hd = ground (arith, write_flags_lem p s c v)
