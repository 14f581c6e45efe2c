-- ===== src/DataProcessing/Typed.antt =====
-- The sixteen instructions of arm_data_processing.c write words.
use progs.Prelude.{ℕ}
use progs.Prelude.Range.{IsWord, range_rules, one-IsWord}
use progs.Core.Typed.{Typed, IsUnit, if-Typed, IsWord-pure}
use progs.Core.Words.{typed_rules}
use progs.DataProcessing.{
  logical, arithmetic, compare_with, test_with, move, write_flags, update_flags, and_instr,
  xor_instr, sub_instr, rsb_instr, add_instr, adc_instr, sbc_instr, rsc_instr, tst_instr, teq_instr,
  cmp_instr, cmn_instr, orr_instr, mov_instr, bic_instr, mvn_instr,
}
use progs.Instruction.{data_processing}

write_flags-Typed : (rdest c v : ℕ) → Typed IsUnit (write_flags rdest c v)
unfolding write_flags
write_flags-Typed rdest c v = search typed_rules depth 20

update_flags-Typed : (rdest s c v : ℕ) → Typed IsUnit (update_flags rdest s c v)
unfolding update_flags
update_flags-Typed rdest s c v = search (typed_rules, write_flags-Typed) depth 20

ruleset flag_rules = (typed_rules, write_flags-Typed, update_flags-Typed)

abbrev Operation : (ℕ → ℕ) → Type 0
Operation f = (v : ℕ) → IsWord v → IsWord (f v)

module _ (rsource rdest so : ℕ) (operation : ℕ → ℕ) where
  logical-Typed :
      (carry s : ℕ)
      → Operation operation
      → Typed IsWord (logical rsource rdest so operation carry s)
  logical-Typed carry s h = search (flag_rules, h) depth 20

  arithmetic-Typed :
      (carry overflow : ℕ → ℕ → ℕ) (s : ℕ)
      → Operation operation
      → Typed IsWord (arithmetic rsource rdest so operation carry overflow s)
  arithmetic-Typed carry overflow s h = search (flag_rules, h) depth 20

  compare_with-Typed :
      (carry overflow : ℕ → ℕ → ℕ) → Typed IsWord (compare_with rsource so operation carry overflow)
  compare_with-Typed carry overflow = search flag_rules depth 20

  test_with-Typed : (carry : ℕ) → Typed IsWord (test_with rsource so operation carry)
  test_with-Typed carry = search flag_rules depth 20

move-Typed :
    (rdest so value carry s : ℕ) → IsWord value → Typed IsWord (move rdest so value carry s)
move-Typed rdest so value carry s h = search (flag_rules, h) depth 20

module _ (rsource rdest so : ℕ) (word : IsWord so) where
  and_instr-Typed : (carry s : ℕ) → Typed IsWord (and_instr rsource rdest so carry s)
  unfolding and_instr
  and_instr-Typed carry s = search (logical-Typed, range_rules) depth 20

  xor_instr-Typed : (carry s : ℕ) → Typed IsWord (xor_instr rsource rdest so carry s)
  unfolding xor_instr
  xor_instr-Typed carry s = search (logical-Typed, range_rules, word) depth 20

  orr_instr-Typed : (carry s : ℕ) → Typed IsWord (orr_instr rsource rdest so carry s)
  unfolding orr_instr
  orr_instr-Typed carry s = search (logical-Typed, range_rules, word) depth 20

  bic_instr-Typed : (carry s : ℕ) → Typed IsWord (bic_instr rsource rdest so carry s)
  unfolding bic_instr
  bic_instr-Typed carry s = search (logical-Typed, range_rules) depth 20

  sub_instr-Typed : (s : ℕ) → Typed IsWord (sub_instr rsource rdest so s)
  unfolding sub_instr
  sub_instr-Typed s = search (arithmetic-Typed, range_rules) depth 20

  rsb_instr-Typed : (s : ℕ) → Typed IsWord (rsb_instr rsource rdest so s)
  unfolding rsb_instr
  rsb_instr-Typed s = search (arithmetic-Typed, range_rules) depth 20

  add_instr-Typed : (s : ℕ) → Typed IsWord (add_instr rsource rdest so s)
  unfolding add_instr
  add_instr-Typed s = search (arithmetic-Typed, range_rules) depth 20

  adc_instr-Typed : (c s : ℕ) → Typed IsWord (adc_instr rsource rdest so c s)
  unfolding adc_instr
  adc_instr-Typed c s = search (arithmetic-Typed, range_rules) depth 20

  sbc_instr-Typed : (c s : ℕ) → Typed IsWord (sbc_instr rsource rdest so c s)
  unfolding sbc_instr
  sbc_instr-Typed c s = search (arithmetic-Typed, range_rules) depth 20

  rsc_instr-Typed : (c s : ℕ) → Typed IsWord (rsc_instr rsource rdest so c s)
  unfolding rsc_instr
  rsc_instr-Typed c s = search (arithmetic-Typed, range_rules) depth 20

  mov_instr-Typed : (carry s : ℕ) → Typed IsWord (mov_instr rdest so carry s)
  unfolding mov_instr
  mov_instr-Typed carry s = search (move-Typed, range_rules, word) depth 20

  mvn_instr-Typed : (carry s : ℕ) → Typed IsWord (mvn_instr rdest so carry s)
  unfolding mvn_instr
  mvn_instr-Typed carry s = search (move-Typed, range_rules) depth 20

  tst_instr-Typed : (carry : ℕ) → Typed IsWord (tst_instr rsource so carry)
  unfolding tst_instr
  tst_instr-Typed carry = search test_with-Typed

  teq_instr-Typed : (carry : ℕ) → Typed IsWord (teq_instr rsource so carry)
  unfolding teq_instr
  teq_instr-Typed carry = search test_with-Typed

  cmp_instr-Typed : Typed IsWord (cmp_instr rsource so)
  unfolding cmp_instr
  cmp_instr-Typed = search compare_with-Typed

  cmn_instr-Typed : Typed IsWord (cmn_instr rsource so)
  unfolding cmn_instr
  cmn_instr-Typed = search compare_with-Typed

  pub data_processing-Typed :
      (op carry s c : ℕ) → Typed IsWord (data_processing op rsource rdest so carry s c)
  data_processing-Typed op carry s c =
      search
        (
          if-Typed, IsWord-pure, one-IsWord, and_instr-Typed, xor_instr-Typed, sub_instr-Typed,
          rsb_instr-Typed, add_instr-Typed, adc_instr-Typed, sbc_instr-Typed, rsc_instr-Typed,
          tst_instr-Typed, teq_instr-Typed, cmp_instr-Typed, cmn_instr-Typed, orr_instr-Typed,
          mov_instr-Typed, bic_instr-Typed, mvn_instr-Typed,
        )
        depth 25
