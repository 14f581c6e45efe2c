-- ===== src/Instruction/DataStep.antt =====
-- A whole step that executes a data-processing instruction.
use progs.Prelude.{ℕ, ◌+◌, ◌-◌, ◌/◌, ◌%◌, ◌<◌, ◌≡◌, ◌⊎◌, ap, ◌∙◌, some, arith, if◌then◌else◌}
use progs.Prelude.Word.{word_size, u32}
use progs.Util.{Target}
use progs.Memory.Outcome.{IsAllocated, Fits}
use progs.Memory.Layout.{IsBytes, word_at}
use progs.Core.{ArmCore, Run, ok, and_then}
use progs.Core.RegisterFile.{put, reg_at, as_pc-lt}
use progs.Core.Fetch.{arm_fetch_lem}
use progs.DataProcessing.Results.{compared}
use progs.Instruction.{traitement_ar, select_execute_instruction, arm_step}
use progs.Instruction.Decode.{alu, is_comparison, data_processing_lem}
use progs.Instruction.Operand.{operand, operand_lem}
use progs.Instruction.Shifter.{chosen, chosen-lt, update-ok}
use progs.Instruction.Step.{concluded, step-passed}
use progs.Instruction.Branching.{always}

-- What data-processing instruction `mot` does to the core `p` with carry flag `c` and the operand `so`.
abbrev pub with_operand : (mot c : ℕ) → ArmCore → (so : ℕ) → Run ℕ
with_operand mot c p so =
    let op = mot / 2097152 % 16 in
    let value = alu op (reg_at p (mot / 65536 % 16)) so c in
    if is_comparison op then compared p value else ok 0 (put p (mot / 4096 % 16) value)

-- What it does with its own operand.
abbrev pub processed : Target → (mot c : ℕ) → ArmCore → Run ℕ
processed t mot c p =
    with_operand mot c p
      (operand t (reg_at p (mot % 4096 % 16)) (mot / 4096 % 16) (mot % 4096) (mot / 33554432 % 2))

pub traitement_ar_lem :
    (t : Target) (mot c : ℕ) (p : ArmCore)
    → c < 2
    → reg_at p (mot / 65536 % 16) < word_size
    → traitement_ar t mot c p ≡ processed t mot c p
unfolding traitement_ar
traitement_ar_lem t mot c p flag word =
    let rd = mot / 4096 % 16 in
    let r = reg_at p (mot % 4096 % 16) in
    let i = mot / 33554432 % 2 in
    let (so, carry) = chosen t p.cycle_count r rd (mot % 4096) i c in
    rw (update-ok t p rd (mot % 4096) i c) (
      data_processing_lem p (mot / 65536 % 16) rd so carry (mot / 1048576 % 2) c (omega arith)
        (omega arith) (omega arith) flag
        (chosen-lt t p.cycle_count r rd (mot % 4096) i c (omega arith)) word (mot / 2097152 % 16)
        (omega arith))
    ∙ ap (with_operand mot c p) (operand_lem t p.cycle_count r rd (mot % 4096) i c (omega arith))

processed-concluded :
    (t : Target) (mot c : ℕ) (p : ArmCore)
    → and_then (processed t mot c p) concluded ≡ processed t mot c p
processed-concluded t mot c p = ground arith

pub select-data :
    (t : Target) (mot n z v c : ℕ) (q : ArmCore)
    → mot / 67108864 % 4 ≡ 0
    → (mot / 128 % 2 ≡ 0) ⊎ (mot / 16 % 2 ≡ 0)
    → select_execute_instruction t mot n z v c q ≡ traitement_ar t mot c q
unfolding select_execute_instruction
select-data t mot n z v c q kind plain = ground arith

-- With an aligned program counter `a` inside the memory block, at a word whose condition is AL,
-- whose bits 27 and 26 are clear and whose bits 7 and 4 are not both set, one step fetches the
-- word and then stores the table's result of the operation in the destination register, or, for a
-- comparison, changes nothing or reads outside the register file. The carry that goes in is bit 29
-- of the program counter after the fetch, the status word.
pub arm_step-data :
    (t : Target) (p : ArmCore)
    → IsAllocated p.mem
    → IsBytes p.mem
    → p.reg.cpsr < word_size - 8
    → p.reg.cpsr % 4 ≡ 0
    → Fits p.mem p.reg.cpsr 4
    → ((i : ℕ) → i < 15 → p.reg.regs i < word_size)
    → word_at p.mem p.reg.cpsr / 268435456 ≡ 14
    → word_at p.mem p.reg.cpsr / 67108864 % 4 ≡ 0
    → (word_at p.mem p.reg.cpsr / 128 % 2 ≡ 0) ⊎ (word_at p.mem p.reg.cpsr / 16 % 2 ≡ 0)
    → arm_step t p
      ≡ processed t (word_at p.mem p.reg.cpsr) ((p.reg.cpsr + 4) / 536870912 % 2) (record p {
        cycle_count = u32 (p.cycle_count + 1);
        reg = record (p.reg) { cpsr = p.reg.cpsr + 4 };
      })
arm_step-data t p w bytes small aligned fits words al kind plain =
    let a = p.reg.cpsr in
    let mot = word_at p.mem a in
    let c = (a + 4) / 536870912 % 2 in
    let q : ArmCore = record p {
      cycle_count = u32 (p.cycle_count + 1);
      reg = record (p.reg) { cpsr = a + 4 };
    } in
    let rn = mot / 65536 % 16 in
    let word : reg_at q rn < word_size = ground (arith, as_pc-lt (a + 4), words rn) in
    step-passed t p q (some mot) (arm_fetch_lem t p w bytes (omega arith) aligned fits)
      (always (a + 4) mot al)
    ∙ (ap (λ (r : Run ℕ). and_then r concluded)
          (select-data t mot _ _ _ c q kind plain ∙ traitement_ar_lem t mot c q (omega arith) word)
        ∙ processed-concluded t mot c q)
