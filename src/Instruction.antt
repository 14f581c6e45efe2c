-- ===== src/Instruction.antt =====
-- arm_instruction.c: conditions, the shifter operand, and the choice of the instruction's function.
pub mod Condition
pub mod Shifter
pub mod Operand
pub mod Decode
pub mod Step
pub mod Outcome
pub mod Branching
pub mod DataStep
pub mod TransferStep
pub mod SingleStep
pub mod TwoSteps
pub mod Return
pub mod Frame
pub mod Typed
use progs.Prelude.{
  ℕ, ◌+◌, ◌-◌, ◌*◌, ◌%◌, ◌^◌, Bool, true, false, not, ◌&&◌, ◌||◌, Option, none, some, bit_and,
  bit_or, ltb, ◌==◌, ◌!=◌, if◌then◌else◌, is_set, is_clear,
}
use progs.Prelude.Word.{u8, u16, u32, ◌<<<◌, ◌>>>◌}
use progs.Util.{Target, asr, ror}
use progs.Core.{M, pure, gets, ◌>>=◌, ◌>>◌, arm_read_usr_register, arm_read_cpsr, arm_fetch}
use progs.Exception.{arm_exception}
use progs.DataProcessing.{
  and_instr, xor_instr, sub_instr, rsb_instr, add_instr, adc_instr, sbc_instr, rsc_instr, tst_instr,
  teq_instr, cmp_instr, cmn_instr, orr_instr, mov_instr, bic_instr, mvn_instr, flag_n, flag_z,
  flag_c, flag_v,
}
use progs.LoadStore.{arm_load_store, arm_load_store_h}
use progs.Branch.{arm_branch}

-- The test of each case of the `switch`; the function returns 0 where it holds. `cond` is a
-- four-bit field, so the default case is not reached.
abbrev pub passes : (n z v c cond : ℕ) → Bool
passes n z v c cond =
    let same = is_set n && is_set v || is_clear n && is_clear v in
    let differ = is_set n && is_clear v || is_clear n && is_set v in
    if cond == 0
    then is_set z
    else if cond == 1
    then is_clear z
    else if cond == 2
    then is_set c
    else if cond == 3
    then is_clear c
    else if cond == 4
    then is_set n
    else if cond == 5
    then is_clear n
    else if cond == 6
    then is_set v
    else if cond == 7
    then is_clear v
    else if cond == 8
    then is_set c && is_clear z
    else if cond == 9
    then is_clear c && is_set z
    else if cond == 10
    then same
    else if cond == 11
    then differ
    else if cond == 12
    then is_clear z && same
    else if cond == 13
    then is_set z || differ
    else if cond == 14
    then true
    else if cond == 15
    then false
    else true

unfoldable pub check_cond_failed : (n z v c cond : ℕ) → ℕ
check_cond_failed n z v c cond = if passes n z v c cond then 0 else 1

-- A shifter operand and its carry out, a uint16_t and a bit.
abbrev pub Shifted : Type 0
Shifted = ℕ × ℕ

-- The shift amount in a register: `rs4` is the field of bits 11 to 8, `rs7` has `Rdest` above it.
unfoldable pub shift_by_register : Target → (rm rs4 rs7 shift c : ℕ) → Shifted
shift_by_register t rm rs4 rs7 shift c =
    if shift == 0
    then (if rs7 == 0
        then (rm, c)
        else if ltb rs7 32
        then (u16 (rm <<< rs7), (rm >>> (32 - rs7)) % 2)
        else if rs7 == 32
        then (0, rm % 2)
        else (0, 0))
    else if shift == 1
    then (if rs7 == 0
        then (rm, c)
        else if ltb rs7 32
        then (rm >>> rs7, (rm >>> (rs7 - 1)) % 2)
        else if rs7 == 32
        then (0, (rm >>> 31) % 2)
        else (0, 0))
    else if shift == 2
    then (if rs7 == 0
        then (rm, c)
        else if ltb rs7 32
        then (u16 (asr t rm rs7), (rm >>> (rs7 - 1)) % 2)
        else if is_set ((rm >>> 31) % 2)
        then (0, (rm >>> 31) % 2)
        else (0xFFFF, (rm >>> 31) % 2))
    else (if rs7 == 0
        then (rm, c)
        else if rs4 == 0
        then (rm, (rm >>> 31) % 2)
        else (u16 (asr t rm rs4), (rm >>> (rs4 - 1)) % 2))

-- The shift amount in the instruction. A rotation by 0 leaves the operand as it was and assigns no
-- carry.
unfoldable pub shift_by_immediate : Target → (cycle so rm shift_imm shift c : ℕ) → Shifted
shift_by_immediate t cycle so rm shift_imm shift c =
    if shift == 0
    then (if shift_imm == 0
        then (rm, c)
        else (u16 (rm <<< shift_imm), (rm >>> (32 - shift_imm)) % 2))
    else if shift == 1
    then (if shift_imm == 0
        then (0, (rm >>> 31) % 2)
        else (rm >>> shift_imm, (rm >>> (shift_imm - 1)) % 2))
    else if shift == 2
    then (if shift_imm == 0
        then (if u32 (rm <<< 31) % 2 == 0 then (0, (rm >>> 31) % 2) else (0xFFFF, (rm >>> 31) % 2))
        else (u16 (asr t rm shift_imm), (rm >>> (shift_imm - 1)) % 2))
    else (if shift_imm == 0
        then (so, u8 (t.unassigned cycle))
        else (u16 (ror t rm shift_imm), (rm >>> (shift_imm - 1)) % 2))

-- The rotated immediate.
unfoldable pub shift_immediate : Target → (so c : ℕ) → Shifted
shift_immediate t so c =
    let ri = (so >>> 8) % 16 in
    let operand = u16 (ror t (so % 256) (ri * 2)) in
    (operand, (if ri == 0 then c else (operand >>> 31) % 2))

-- The `switch` on `opCode`, a four-bit field: its default case is not reached.
abbrev pub data_processing : (op_code rsource rdest so carry s c : ℕ) → M ℕ
data_processing op_code rsource rdest so carry s c =
    if op_code == 0
    then and_instr rsource rdest so carry s
    else if op_code == 1
    then xor_instr rsource rdest so carry s
    else if op_code == 2
    then sub_instr rsource rdest so s
    else if op_code == 3
    then rsb_instr rsource rdest so s
    else if op_code == 4
    then add_instr rsource rdest so s
    else if op_code == 5
    then adc_instr rsource rdest so c s
    else if op_code == 6
    then sbc_instr rsource rdest so c s
    else if op_code == 7
    then rsc_instr rsource rdest so c s
    else if op_code == 8
    then tst_instr rsource so carry
    else if op_code == 9
    then teq_instr rsource so carry
    else if op_code == 10
    then cmp_instr rsource so
    else if op_code == 11
    then cmn_instr rsource so
    else if op_code == 12
    then orr_instr rsource rdest so carry s
    else if op_code == 13
    then mov_instr rdest so carry s
    else if op_code == 14
    then bic_instr rsource rdest so carry s
    else if op_code == 15
    then mvn_instr rdest so carry s
    else pure 1

-- The word to execute: `mot` starts as the status word, and a refused fetch leaves it so.
abbrev pub fetched_or : ℕ → Option ℕ → ℕ
fetched_or mot none = mot
fetched_or mot (some word) = word

module _ (t : Target) where
  -- `RM` is a uint8_t: the low byte of the register.
  unfoldable pub update_shifter_operand : (rdest so i c : ℕ) → M Shifted
  update_shifter_operand rdest so i c =
      if is_clear i
      then (do
        cycle ← gets (λ p. p.cycle_count)
        rm ← arm_read_usr_register (so % 16)
        let shift = (so >>> 5) % 4
        let rs = (so >>> 8) % 16
        pure (
            if is_set ((so >>> 4) % 2)
            then shift_by_register t (u8 rm) rs (u8 (bit_or (rdest <<< 4) rs)) shift c
            else shift_by_immediate t cycle so (u8 rm) ((so >>> 7) % 32) shift c))
      else pure (shift_immediate t so c)

  unfoldable pub traitement_ar : (mot c : ℕ) → M ℕ
  traitement_ar mot c = do
    let i = (mot >>> 25) % 2
    let s = (mot >>> 20) % 2
    let op_code = (mot >>> 21) % 16
    let rsource = (mot >>> 16) % 16
    let rdest = (mot >>> 12) % 16
    (so, carry) ← update_shifter_operand rdest (mot % 4096) i c
    data_processing op_code rsource rdest so carry s c

  abbrev pub traitement_ls : ℕ → M ℕ
  traitement_ls mot = arm_load_store t mot

  -- The branch's own result is dropped.
  unfoldable pub traitement_br : ℕ → M ℕ
  traitement_br mot = do result ← arm_branch mot; pure 0

  abbrev pub traitement_spe : M ℕ
  traitement_spe = pure 0

  unfoldable pub select_execute_instruction : (mot n z v c : ℕ) → M ℕ
  select_execute_instruction mot n z v c =
      let typeop = (mot >>> 26) % 4 in
      let bit7 = (mot >>> 7) % 2 in
      let bit4 = (mot >>> 4) % 2 in
      if typeop == 0
      then (if is_set bit7 && is_set bit4 then arm_load_store_h t mot else traitement_ar mot c)
      else if typeop == 1
      then traitement_ls mot
      else if typeop == 2
      then traitement_br mot
      else if typeop == 3
      then traitement_spe
      else pure 1

  unfoldable pub arm_execute_instruction : M ℕ
  arm_execute_instruction = do
    initial ← arm_read_cpsr
    word ← arm_fetch t
    let mot = fetched_or initial word
    cpsr ← arm_read_cpsr
    let n = (cpsr >>> flag_n) % 2
    let z = (cpsr >>> flag_z) % 2
    let v = (cpsr >>> flag_v) % 2
    let c = (cpsr >>> flag_c) % 2
    if is_set (check_cond_failed n z v c ((mot >>> 28) % 16))
        then pure 1
        else select_execute_instruction mot n z v c

  unfoldable pub arm_step : M ℕ
  arm_step = do
    result ← arm_execute_instruction
    if is_set result then arm_exception (u8 result) else pure tt
    pure result
