-- ===== src/Tests/Steps.antt =====
-- Tests of arm_instruction.c and arm_branch_other.c.
use progs.Prelude.{ℕ, ◌≢◌, ◌≡◌, refl, true, false, arith, inl, inr}
use progs.Memory.Layout.{put_word}
use progs.Memory.RoundTrip.{put_word-IsBytes}
use progs.Instruction.Return.{mov_pc_lr, arm_step-return}
use progs.Core.{ArmCore, ok, ◌>>=◌}
use progs.Branch.{branch_offset}
use progs.Instruction.{check_cond_failed, arm_step, shift_immediate}
use progs.Instruction.Condition.{check_cond_failed_lem}
use progs.Instruction.Shifter.{shift_immediate_lem}
use progs.Instruction.Branching.{arm_step-branch, jumped}
use progs.Instruction.DataStep.{arm_step-data, processed}
use progs.Tests.{host, block, block-IsBytes, core}

-- bl to the address 16
abbrev calling : ArmCore
calling = core (block true 0xEB 0x00 0x00 0x02)

arm_step-branch_example : arm_step host calling ≡ ok 0 (jumped calling 0 0xEB000002)
arm_step-branch_example =
    arm_step-branch host calling (omega arith)
      (block-IsBytes true 0xEB 0x00 0x00 0x02 (omega arith) (omega arith) (omega arith)
        (omega arith))
      (omega arith) refl (omega arith) refl refl

-- add r2, r3, r4
abbrev adding : ArmCore
adding = core (block true 0xE0 0x83 0x20 0x04)

arm_step-data_example :
    arm_step host adding
    ≡ processed host 0xE0832004 0
        (record adding { cycle_count = 1; reg = record (adding.reg) { cpsr = 4 } })
arm_step-data_example =
    arm_step-data host adding (omega arith)
      (block-IsBytes true 0xE0 0x83 0x20 0x04 (omega arith) (omega arith) (omega arith)
        (omega arith))
      (omega arith) refl (omega arith) (λ i h. omega arith) refl refl (inl refl)

check_cond_failed_lem_example : check_cond_failed 0 1 0 1 9 ≡ 1
check_cond_failed_lem_example = check_cond_failed_lem false true false true 9 (omega arith)

-- mov r0, #0xFF000000
shift_immediate_lem_example :
    ((shift_immediate host 0x4FF 1).0 ≡ 0) × ((shift_immediate host 0x4FF 1).1 ≡ 0)
shift_immediate_lem_example =
    shift_immediate_lem host 0x4FF 1 (λ x. inr (omega arith)) (omega arith)

-- The call of the address 16, and the return there.
abbrev called : ArmCore
called = core (put_word (block true 0xEB 0x00 0x00 0x02) 16 mov_pc_lr)

arm_step-return_example :
    (q : ArmCore) × ((arm_step host >>= λ _. arm_step host) called ≡ ok 0 q)
    × (q.mem ≡ called.mem)
    × (q.reg.cpsr ≡ 8)
    × ((i : ℕ) → i ≢ 14 → q.reg.regs i ≡ called.reg.regs i)
unfolding branch_offset
arm_step-return_example = arm_step-return host called 0xEB000002 (
  (
    omega arith,
    put_word-IsBytes (block true 0xEB 0x00 0x00 0x02) 16 mov_pc_lr (omega arith) (
        block-IsBytes true 0xEB 0x00 0x00 0x02 (omega arith) (omega arith) (omega arith)
          (omega arith)),
    λ i h. omega arith,
  ),
  (omega arith, refl, omega arith, refl, refl),
  (omega arith, refl, omega arith, refl),
)
