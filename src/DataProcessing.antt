-- ===== src/DataProcessing.antt =====
-- arm_data_processing.c: flags, and one function for each data-processing instruction.
pub mod Flags
pub mod Carry
pub mod Results
pub mod Typed
use progs.Prelude.{
  ℕ, ◌+◌, ◌%◌, Bool, ◌&&◌, not, bit_and, bit_or, bit_xor, ltb, ◌==◌, ◌!=◌, if◌then◌else◌, is_set,
  of_bool,
}
use progs.Prelude.Word.{u8, u32, sub32, not32, ◌<<<◌, ◌>>>◌}
use progs.Exception.{undefined_instruction}
use progs.Core.{
  M, pure, ◌>>=◌, ◌>>◌, arm_read_usr_register, arm_write_usr_register, arm_read_cpsr,
  arm_write_cpsr, arm_read_spsr, arm_current_mode_has_spsr,
}

pub arm_data_processing_shift : ℕ → M ℕ
arm_data_processing_shift ins = pure undefined_instruction

pub arm_data_processing_immediate_msr : ℕ → M ℕ
arm_data_processing_immediate_msr ins = pure undefined_instruction

-- Bit numbers of the flags in the status word.
abbrev pub flag_n : ℕ
flag_n = 31

abbrev pub flag_z : ℕ
flag_z = 30

abbrev pub flag_c : ℕ
flag_c = 29

abbrev pub flag_v : ℕ
flag_v = 28

unfoldable pub set_1_bit : ℕ → ℕ → ℕ → ℕ
set_1_bit res num_bit set_bit =
    let masque = not32 (u32 (1 <<< num_bit)) in
    bit_or (bit_and res masque) (u32 (set_bit <<< num_bit))

-- A call whose value is not used.
abbrev pub discard : ℕ → M (Unit {0})
discard value = pure tt

-- The four results of `set_1_bit` are dropped, and `new_CPSR` is written back as it was read.
unfoldable pub write_flags : (rdest c v : ℕ) → M (Unit {0})
write_flags rdest c v = do
  new_cpsr ← arm_read_cpsr
  rd ← arm_read_usr_register rdest
  discard (set_1_bit new_cpsr flag_n ((rd >>> 31) % 2))
  rd' ← arm_read_usr_register rdest
  discard (set_1_bit new_cpsr flag_z (of_bool (rd' == 0)))
  if c != 0xFF then discard (set_1_bit new_cpsr flag_c c) else pure tt
  if v != 0xFF then discard (set_1_bit new_cpsr flag_v v) else pure tt
  arm_write_cpsr new_cpsr

unfoldable pub update_flags : (rdest s c v : ℕ) → M (Unit {0})
unfolding write_flags
update_flags rdest s c v =
    if s == 1 && rdest == 15
    then (do
      has ← arm_current_mode_has_spsr
      if is_set has then (do spsr ← arm_read_spsr; arm_write_cpsr spsr) else pure tt)
    else if s == 1
    then write_flags rdest c v
    else pure tt

unfoldable pub borrow_from : ℕ → ℕ → ℕ
borrow_from operande1 operande2 = of_bool (ltb operande1 operande2)

-- `temp` is an int, and is compared as a uint32_t again.
unfoldable pub carry_from : ℕ → ℕ → ℕ
carry_from operande1 operande2 =
    let temp = sub32 0xFFFFFFFF operande1 in of_bool (ltb temp operande2)

unfoldable pub overflow_from : (operande1 operande2 result operation : ℕ) → ℕ
overflow_from operande1 operande2 result operation =
    let s1 = operande1 >>> 31 in
    let s2 = operande2 >>> 31 in
    let sr = result >>> 31 in
    if operation == 1
    then of_bool ((s1 == s2) && (s1 == sr))
    else of_bool ((s1 != s2) && (s1 != sr))

-- The `update_flags(p, S, Rdest, …)` of each instruction: `S` goes in as the register and `Rdest`
-- as the S bit.
module _ (rsource rdest shifter_operand : ℕ) where
  -- and, xor, orr and bic differ in the operation alone.
  abbrev pub logical : (ℕ → ℕ) → (carry s : ℕ) → M ℕ
  logical operation carry s = do
    rn ← arm_read_usr_register rsource
    arm_write_usr_register rdest (operation rn)
    update_flags s rdest carry 0xFF
    pure 0

  unfoldable pub and_instr : (carry s : ℕ) → M ℕ
  and_instr = logical (λ rn. bit_and rn shifter_operand)

  unfoldable pub xor_instr : (carry s : ℕ) → M ℕ
  xor_instr = logical (λ rn. bit_xor rn shifter_operand)

  unfoldable pub orr_instr : (carry s : ℕ) → M ℕ
  orr_instr = logical (λ rn. bit_or rn shifter_operand)

  unfoldable pub bic_instr : (carry s : ℕ) → M ℕ
  bic_instr = logical (λ rn. bit_and rn (not32 shifter_operand))

  -- The sum or difference is stored first, and the flags are computed from `Rsource` read again.
  abbrev pub arithmetic : (ℕ → ℕ) → (carry overflow : ℕ → ℕ → ℕ) → (s : ℕ) → M ℕ
  arithmetic operation carry overflow s = do
    rn ← arm_read_usr_register rsource
    let value = operation rn
    arm_write_usr_register rdest value
    rn1 ← arm_read_usr_register rsource
    rn2 ← arm_read_usr_register rsource
    update_flags s rdest (u8 (carry rn1 value)) (overflow rn2 value)
    pure 0

  unfoldable pub sub_instr : (s : ℕ) → M ℕ
  sub_instr =
      arithmetic (λ rn. sub32 rn shifter_operand)
        (λ rn value. not32 (borrow_from rn shifter_operand))
        (λ rn value. overflow_from rn shifter_operand value 0)

  unfoldable pub rsb_instr : (s : ℕ) → M ℕ
  rsb_instr =
      arithmetic (λ rn. sub32 shifter_operand rn)
        (λ rn value. not32 (borrow_from shifter_operand rn))
        (λ rn value. overflow_from shifter_operand rn value 0)

  unfoldable pub add_instr : (s : ℕ) → M ℕ
  add_instr =
      arithmetic (λ rn. u32 (rn + shifter_operand)) (λ rn value. carry_from rn shifter_operand)
        (λ rn value. overflow_from shifter_operand rn value 1)

  unfoldable pub adc_instr : (c s : ℕ) → M ℕ
  adc_instr c =
      arithmetic (λ rn. u32 (rn + shifter_operand + c))
        (λ rn value. carry_from rn (shifter_operand + c))
        (λ rn value. overflow_from (shifter_operand + c) rn value 1)

  -- `~(flag_C)` is the complement of the whole int.
  unfoldable pub sbc_instr : (c s : ℕ) → M ℕ
  sbc_instr c =
      arithmetic (λ rn. sub32 (sub32 rn shifter_operand) (not32 c))
        (λ rn value. not32 (borrow_from rn (sub32 shifter_operand (not32 c))))
        (λ rn value. overflow_from rn (sub32 shifter_operand (not32 c)) value 0)

  unfoldable pub rsc_instr : (c s : ℕ) → M ℕ
  rsc_instr c =
      arithmetic (λ rn. sub32 (sub32 shifter_operand rn) (not32 c))
        (λ rn value. not32 (borrow_from (sub32 shifter_operand (not32 c)) rn))
        (λ rn value. overflow_from (sub32 shifter_operand (not32 c)) rn value 0)

module _ (rdest shifter_operand : ℕ) where
  abbrev pub move : ℕ → (carry s : ℕ) → M ℕ
  move value carry s = do
    arm_write_usr_register rdest value
    update_flags s rdest carry 0xFF
    pure 0

  unfoldable pub mov_instr : (carry s : ℕ) → M ℕ
  mov_instr = move shifter_operand

  unfoldable pub mvn_instr : (carry s : ℕ) → M ℕ
  mvn_instr = move (not32 shifter_operand)

-- The comparisons pass their result to `write_flags` as the register number, a uint8_t.
module _ (rsource shifter_operand : ℕ) where
  abbrev pub compare_with : (ℕ → ℕ) → (carry overflow : ℕ → ℕ → ℕ) → M ℕ
  compare_with operation carry overflow = do
    rn ← arm_read_usr_register rsource
    let result = operation rn
    rn1 ← arm_read_usr_register rsource
    rn2 ← arm_read_usr_register rsource
    write_flags (u8 result) (u8 (carry rn1 result)) (overflow rn2 result)
    pure 0

  unfoldable pub cmn_instr : M ℕ
  cmn_instr =
      compare_with (λ rn. u32 (rn + shifter_operand)) (λ rn result. carry_from rn shifter_operand)
        (λ rn result. overflow_from rn shifter_operand result 1)

  unfoldable pub cmp_instr : M ℕ
  cmp_instr =
      compare_with (λ rn. sub32 rn shifter_operand)
        (λ rn result. not32 (borrow_from rn shifter_operand))
        (λ rn result. overflow_from rn shifter_operand result 0)

  abbrev pub test_with : (ℕ → ℕ) → (carry : ℕ) → M ℕ
  test_with operation carry = do
    rn ← arm_read_usr_register rsource
    write_flags (u8 (operation rn)) carry 0xFF
    pure 0

  unfoldable pub tst_instr : (carry : ℕ) → M ℕ
  tst_instr = test_with (λ rn. bit_and rn shifter_operand)

  unfoldable pub teq_instr : (carry : ℕ) → M ℕ
  teq_instr = test_with (λ rn. bit_xor rn shifter_operand)
