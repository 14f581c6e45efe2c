-- ===== src/Instruction/Branching.antt =====
-- A whole step that executes an unconditional branch.
use progs.Prelude.{ℕ, ◌+◌, ◌-◌, ◌/◌, ◌%◌, ◌<◌, ◌≡◌, ◌∙◌, some, arith, if◌then◌else◌, is_set}
use progs.Prelude.Word.{word_size, u32}
use progs.Util.{Target}
use progs.Memory.Outcome.{IsAllocated, Fits}
use progs.Memory.Layout.{IsBytes, word_at}
use progs.Registers.{update}
use progs.Core.{ArmCore, ok, as_pc}
use progs.Core.RegisterFile.{as_pc_lem}
use progs.Core.Fetch.{arm_fetch_lem}
use progs.Branch.{branch_offset}
use progs.Branch.Offset.{branch_target, branch_target_lem, branched, arm_branch_lem}
use progs.Instruction.{check_cond_failed, traitement_br, select_execute_instruction, arm_step}
use progs.Instruction.Step.{condition, step-passed}

pub always : (cpsr mot : ℕ) → mot / 268435456 ≡ 14 → condition cpsr mot ≡ 0
unfolding check_cond_failed
always cpsr mot h = ground arith

pub select-branch :
    (t : Target) (mot n z v c : ℕ) (q : ArmCore)
    → mot / 33554432 % 8 ≡ 5
    → select_execute_instruction t mot n z v c q
      ≡ ok 0 (branched (mot / 16777216 % 2) (branch_offset mot) q)
unfolding select_execute_instruction traitement_br
select-branch t mot n z v c q h = ground (arith, arm_branch_lem q mot)

aligned_pc : (a : ℕ) → a < word_size - 8 → a % 4 ≡ 0 → as_pc (a + 4) ≡ a + 8
aligned_pc a small aligned = omega (arith, as_pc_lem (a + 4))

-- The core after a branch found at address `a`.
abbrev pub jumped : ArmCore → (a mot : ℕ) → ArmCore
jumped p a mot = record p {
  cycle_count = u32 (p.cycle_count + 1);
  reg = record {
    regs = if is_set (mot / 16777216 % 2) then update p.reg.regs 14 (a + 8) else p.reg.regs;
    cpsr = branch_target a mot;
  };
}

-- With an aligned program counter `a` inside the memory block, at a word whose condition is AL and
-- whose bits 27 to 25 are 101, one step returns 0 and moves the program counter to `a + 8` plus
-- four times the signed number in bits 23 to 0, modulo 2 ^ 32. With the L bit register 14 becomes
-- `a + 8`, the address of the second instruction after the branch. Nothing else changes but the
-- cycle count.
pub arm_step-branch :
    (t : Target) (p : ArmCore)
    → IsAllocated p.mem
    → IsBytes p.mem
    → p.reg.cpsr < word_size - 8
    → p.reg.cpsr % 4 ≡ 0
    → Fits p.mem p.reg.cpsr 4
    → word_at p.mem p.reg.cpsr / 268435456 ≡ 14
    → word_at p.mem p.reg.cpsr / 33554432 % 8 ≡ 5
    → arm_step t p ≡ ok 0 (jumped p p.reg.cpsr (word_at p.mem p.reg.cpsr))
arm_step-branch t p w bytes small aligned fits al kind =
    let a = p.reg.cpsr in
    let mot = word_at p.mem a in
    let q : ArmCore = record p {
      cycle_count = u32 (p.cycle_count + 1);
      reg = record (p.reg) { cpsr = a + 4 };
    } in
    let fetch = arm_fetch_lem t p w bytes (omega arith) aligned fits in
    step-passed t p q (some mot) fetch (always (a + 4) mot al)
    ∙ rw
        (
          select-branch t mot _ _ _ _ q kind,
          aligned_pc a small aligned,
          branch_target_lem a mot small,
        )
        (ground arith)
