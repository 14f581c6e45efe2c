-- ===== src/Instruction/Decode.antt =====
-- The sixteen data-processing instructions, by their number.
use progs.Prelude.{
  ℕ, ◌+◌, ◌-◌, ◌%◌, ◌<◌, ◌≡◌, ap, ◌∙◌, Bool, ◌&&◌, ◌||◌, bit_and, bit_or, bit_xor, arith, ◌==◌,
  if◌then◌else◌, ltb,
}
use progs.Prelude.Word.{word_size, sub32, not32}
use progs.Core.{ArmCore, Run, ok}
use progs.Core.RegisterFile.{reg_at, put}
use progs.DataProcessing.{
  and_instr, xor_instr, sub_instr, rsb_instr, add_instr, adc_instr, sbc_instr, rsc_instr, tst_instr,
  teq_instr, borrow_from, carry_from, overflow_from, cmp_instr, cmn_instr, orr_instr, mov_instr,
  bic_instr, mvn_instr,
}
use progs.DataProcessing.Results.{
  compared, logical_lem, arithmetic_lem, move_lem, compare_lem, test_lem,
}
use progs.Instruction.{data_processing}

-- The result of instruction number `op` on the register value `rn`, the operand `so` and the carry
-- flag `c`, as the architecture's table has it, but for SBC and RSC (6 and 7): there the carry
-- should go in as `rn + so' - (1 - c)`, and the code adds `1 + c`.
abbrev pub alu : (op rn so c : ℕ) → ℕ
alu op rn so c =
    if op == 0 || op == 8
    then bit_and rn so
    else if op == 1 || op == 9
    then bit_xor rn so
    else if op == 2 || op == 10
    then (rn + word_size - so) % word_size
    else if op == 3
    then (so + word_size - rn) % word_size
    else if op == 4 || op == 11
    then (rn + so) % word_size
    else if op == 5
    then (rn + so + c) % word_size
    else if op == 6
    then (rn + word_size - so + 1 + c) % word_size
    else if op == 7
    then (so + word_size - rn + 1 + c) % word_size
    else if op == 12
    then bit_or rn so
    else if op == 13
    then so
    else if op == 14
    then bit_and rn (word_size - 1 - so)
    else word_size - 1 - so

abbrev pub is_comparison : ℕ → Bool
is_comparison op = ltb 7 op && ltb op 12

module _ (p : ArmCore) (rsource rdest so carry s c : ℕ) (hs : rsource < 16) (hd : rdest < 16)
    (s_bit : s < 2) (c_bit : c < 2) (half : so < 65536) (word : reg_at p rsource < word_size) where
  abbrev result : ℕ → Run ℕ
  result op =
      let value = alu op (reg_at p rsource) so c in
      if is_comparison op then compared p value else ok 0 (put p rdest value)

  logical_instructions :
      (and_instr rsource rdest so carry s p ≡ result 0)
      × (xor_instr rsource rdest so carry s p ≡ result 1)
      × (orr_instr rsource rdest so carry s p ≡ result 12)
      × (bic_instr rsource rdest so carry s p ≡ result 14)
      × (mov_instr rdest so carry s p ≡ result 13)
      × (mvn_instr rdest so carry s p ≡ result 15)
  unfolding and_instr xor_instr orr_instr bic_instr mov_instr mvn_instr
  logical_instructions = (
    logical_lem p rsource rdest so hs hd _ carry s s_bit,
    logical_lem p rsource rdest so hs hd _ carry s s_bit,
    logical_lem p rsource rdest so hs hd _ carry s s_bit,
    logical_lem p rsource rdest so hs hd _ carry s s_bit,
    move_lem p rdest hd so _ carry s s_bit,
    move_lem p rdest hd so _ carry s s_bit,
  )

  same_value : (v w : ℕ) → v ≡ w → ◌≡◌ {A = Run ℕ} (ok 0 (put p rdest v)) (ok 0 (put p rdest w))
  same_value v w e = ap (λ (n : ℕ). ok 0 (put p rdest n)) e

  arithmetic_instructions :
      (sub_instr rsource rdest so s p ≡ result 2)
      × (rsb_instr rsource rdest so s p ≡ result 3)
      × (add_instr rsource rdest so s p ≡ result 4)
      × (adc_instr rsource rdest so c s p ≡ result 5)
      × (sbc_instr rsource rdest so c s p ≡ result 6)
      × (rsc_instr rsource rdest so c s p ≡ result 7)
  unfolding sub_instr rsb_instr add_instr adc_instr sbc_instr rsc_instr
  arithmetic_instructions = (
    arithmetic_lem p rsource rdest so hs hd _ (λ rn v. not32 (borrow_from rn so))
        (λ rn v. overflow_from rn so v 0) s s_bit,
    arithmetic_lem p rsource rdest so hs hd _ (λ rn v. not32 (borrow_from so rn))
        (λ rn v. overflow_from so rn v 0) s s_bit,
    arithmetic_lem p rsource rdest so hs hd _ (λ rn v. carry_from rn so)
        (λ rn v. overflow_from so rn v 1) s s_bit,
    arithmetic_lem p rsource rdest so hs hd _ (λ rn v. carry_from rn (so + c))
        (λ rn v. overflow_from (so + c) rn v 1) s s_bit,
    arithmetic_lem p rsource rdest so hs hd _ (λ rn v. not32 (borrow_from rn (sub32 so (not32 c))))
          (λ rn v. overflow_from rn (sub32 so (not32 c)) v 0) s s_bit
        ∙ same_value _ _ (omega arith),
    arithmetic_lem p rsource rdest so hs hd _ (λ rn v. not32 (borrow_from (sub32 so (not32 c)) rn))
          (λ rn v. overflow_from (sub32 so (not32 c)) rn v 0) s s_bit
        ∙ same_value _ _ (omega arith),
  )

  comparisons :
      (tst_instr rsource so carry p ≡ result 8)
      × (teq_instr rsource so carry p ≡ result 9)
      × (cmp_instr rsource so p ≡ result 10)
      × (cmn_instr rsource so p ≡ result 11)
  unfolding tst_instr teq_instr cmp_instr cmn_instr
  comparisons = (
    test_lem p rsource so hs _ carry,
    test_lem p rsource so hs _ carry,
    compare_lem p rsource so hs _ (λ rn value. not32 (borrow_from rn so))
        (λ rn value. overflow_from rn so value 0),
    compare_lem p rsource so hs _ (λ rn value. carry_from rn so)
        (λ rn value. overflow_from rn so value 1),
  )

  -- The data-processing instruction number `op`: a comparison leaves the state as it is, or reads
  -- outside the register file when the low byte of its result is above 15; every other instruction
  -- stores `alu op` in the destination and changes nothing else, no flag either, with or without
  -- the S bit.
  pub data_processing_lem :
      (op : ℕ) → op < 16 → data_processing op rsource rdest so carry s c p ≡ result op
  data_processing_lem op h =
      ground (arith, logical_instructions, arithmetic_instructions, comparisons)
