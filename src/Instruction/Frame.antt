-- ===== src/Instruction/Frame.antt =====
-- What a step changes apart from registers and bytes: the cycle count, by 1, and nothing else.
use progs.Prelude.{ℕ, ◌+◌}
use progs.Prelude.Word.{u32}
use progs.Util.{Target}
use progs.Core.{ArmCore, arm_fetch, arm_read_cpsr}
use progs.Core.Frame.{
  Keeps, Ends, access_rules, keeps_rules, continued, arm_read_register-Keeps, if-Keeps, pure-Keeps,
}
use progs.Exception.{arm_exception}
use progs.DataProcessing.{
  logical, arithmetic, compare_with, test_with, move, write_flags, update_flags, and_instr,
  xor_instr, sub_instr, rsb_instr, add_instr, adc_instr, sbc_instr, rsc_instr, tst_instr, teq_instr,
  cmp_instr, cmn_instr, orr_instr, mov_instr, bic_instr, mvn_instr,
}
use progs.LoadStore.{arm_load_store, arm_load_store_h, ldr_ldrb, str_strb}
use progs.Branch.{b_bl_instr, arm_branch}
use progs.Instruction.{
  data_processing, update_shifter_operand, traitement_ar, traitement_br, select_execute_instruction,
  arm_execute_instruction, arm_step,
}

write_flags-Keeps : (rdest c v : ℕ) → Keeps (write_flags rdest c v)
unfolding write_flags
write_flags-Keeps rdest c v = search access_rules depth 20

update_flags-Keeps : (rdest s c v : ℕ) → Keeps (update_flags rdest s c v)
unfolding update_flags
update_flags-Keeps rdest s c v = search (access_rules, write_flags-Keeps) depth 20

pub arm_exception-Keeps : (e : ℕ) → Keeps (arm_exception e)
unfolding arm_exception
arm_exception-Keeps e = search access_rules depth 20

b_bl_instr-Keeps : (ins : ℕ) → Keeps (b_bl_instr ins)
unfolding b_bl_instr
b_bl_instr-Keeps ins = search access_rules depth 20

arm_branch-Keeps : (ins : ℕ) → Keeps (arm_branch ins)
unfolding arm_branch
arm_branch-Keeps ins = search (keeps_rules, b_bl_instr-Keeps)

ruleset flag_rules = (access_rules, write_flags-Keeps, update_flags-Keeps)

module _ (rsource rdest so : ℕ) (operation : ℕ → ℕ) where
  logical-Keeps : (carry s : ℕ) → Keeps (logical rsource rdest so operation carry s)
  logical-Keeps carry s = search flag_rules depth 20

  arithmetic-Keeps :
      (carry overflow : ℕ → ℕ → ℕ) (s : ℕ)
      → Keeps (arithmetic rsource rdest so operation carry overflow s)
  arithmetic-Keeps carry overflow s = search flag_rules depth 20

  compare_with-Keeps :
      (carry overflow : ℕ → ℕ → ℕ) → Keeps (compare_with rsource so operation carry overflow)
  compare_with-Keeps carry overflow = search flag_rules depth 20

  test_with-Keeps : (carry : ℕ) → Keeps (test_with rsource so operation carry)
  test_with-Keeps carry = search flag_rules depth 20

move-Keeps : (rdest so value carry s : ℕ) → Keeps (move rdest so value carry s)
move-Keeps rdest so value carry s = search flag_rules depth 20

data_processing-Keeps :
    (op rsource rdest so carry s c : ℕ) → Keeps (data_processing op rsource rdest so carry s c)
unfolding and_instr xor_instr sub_instr rsb_instr add_instr adc_instr sbc_instr rsc_instr tst_instr
    teq_instr cmp_instr cmn_instr orr_instr mov_instr bic_instr mvn_instr
data_processing-Keeps op rsource rdest so carry s c =
    search
      (
        pure-Keeps, if-Keeps, logical-Keeps, arithmetic-Keeps, compare_with-Keeps, test_with-Keeps,
        move-Keeps,
      )
      depth 25

module _ (t : Target) where
  update_shifter_operand-Keeps : (rdest so i c : ℕ) → Keeps (update_shifter_operand t rdest so i c)
  unfolding update_shifter_operand
  update_shifter_operand-Keeps rdest so i c = search access_rules depth 20

  traitement_ar-Keeps : (mot c : ℕ) → Keeps (traitement_ar t mot c)
  unfolding traitement_ar
  traitement_ar-Keeps mot c =
      search (keeps_rules, update_shifter_operand-Keeps, data_processing-Keeps) depth 20

  ldr_ldrb-Keeps : (b temp rd rn : ℕ) → Keeps (ldr_ldrb t b temp rd rn)
  unfolding ldr_ldrb
  ldr_ldrb-Keeps b temp rd rn = search access_rules depth 20

  str_strb-Keeps : (b temp rd : ℕ) → Keeps (str_strb t b temp rd)
  unfolding str_strb
  str_strb-Keeps b temp rd = search access_rules depth 20

  arm_load_store-Keeps : (ins : ℕ) → Keeps (arm_load_store t ins)
  unfolding arm_load_store
  arm_load_store-Keeps ins = search (access_rules, ldr_ldrb-Keeps, str_strb-Keeps) depth 20

  arm_load_store_h-Keeps : (ins : ℕ) → Keeps (arm_load_store_h t ins)
  unfolding arm_load_store_h
  arm_load_store_h-Keeps ins = search access_rules depth 20

  traitement_br-Keeps : (mot : ℕ) → Keeps (traitement_br t mot)
  unfolding traitement_br
  traitement_br-Keeps mot = search (keeps_rules, arm_branch-Keeps)

  pub select-Keeps : (mot n z v c : ℕ) → Keeps (select_execute_instruction t mot n z v c)
  unfolding select_execute_instruction
  select-Keeps mot n z v c =
      search
        (
          keeps_rules, arm_load_store_h-Keeps, traitement_ar-Keeps, arm_load_store-Keeps,
          traitement_br-Keeps,
        )
        depth 20

  module _ (p : ArmCore) where
    -- The core once the fetch has counted its cycle.
    abbrev pub counted : ArmCore
    counted = record p { cycle_count = u32 (p.cycle_count + 1) }

    arm_fetch-Ends : Ends counted (arm_fetch t p)
    unfolding arm_fetch
    arm_fetch-Ends =
        continued counted _ _ ((arm_read_register-Keeps 15).at counted) (λ r15. search access_rules)

    arm_execute_Ends : Ends counted (arm_execute_instruction t p)
    unfolding arm_execute_instruction arm_read_cpsr
    arm_execute_Ends =
        continued counted _ _ arm_fetch-Ends (λ word. search (access_rules, select-Keeps))

    -- A step that stays inside the register file and the memory block counts one cycle, modulo
    -- 2 ^ 32, whatever the instruction, and leaves the size and the byte order of the memory.
    pub arm_step-Ends : Ends counted (arm_step t p)
    unfolding arm_step
    arm_step-Ends =
        continued counted _ _ arm_execute_Ends (λ result. search (keeps_rules, arm_exception-Keeps))
