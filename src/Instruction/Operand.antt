-- ===== src/Instruction/Operand.antt =====
-- The shifter operand of arm_instruction.c, in arithmetic.
use progs.Prelude.{
  ℕ, zero, suc, ◌+◌, ◌*◌, ◌/◌, ◌%◌, ◌^◌, ◌<◌, ◌≡◌, ap, ◌∙◌, Bool-cases, inl, inr, arith, ltb,
  bit_or, ◌==◌, if◌then◌else◌, is_set, is_clear, true, false,
}
use native.Mathlib.Nat.{div-le_self}
use progs.Prelude.Word.{word_size, u8, u16, ◌<<<◌, ◌>>>◌}
use progs.Prelude.Masks.{bit_or_fields}
use progs.Util.{Target, asr}
use progs.Util.Shift.{asr_positive, ror_lem, ror_by_zero}
use progs.Instruction.{shift_by_register, shift_by_immediate, shift_immediate}
use progs.Instruction.Shifter.{rotated, byte_shifted, shift_by_immediate_lem, chosen}

-- The low byte of `r`, shifted by the register numbered `so / 256`: the amount is that number, with the
-- destination's number above it, or for ROR the number alone.
abbrev pub shifted_by_register : (r rdest so : ℕ) → ℕ
shifted_by_register r rdest so =
    let rm = r % 256 in
    let shift = so / 32 % 4 in
    let rs = so / 256 % 16 in
    let n = (rdest % 16 * 16 + rs) % 256 in
    if n == 0
    then rm
    else if shift == 3
    then rm / 2 ^ rs
    else if ltb n 32
    then (if shift == 0 then rm * 2 ^ n % 65536 else rm / 2 ^ n)
    else if shift == 2
    then 65535
    else 0

-- The low byte of `r`, shifted by the amount in the instruction. At amount 0, LSR and ASR give 0 and
-- ROR gives the field itself.
abbrev pub shifted_by_amount : (r so : ℕ) → ℕ
shifted_by_amount r so =
    let rm = r % 256 in
    let shift = so / 32 % 4 in
    let n = so / 128 % 32 in
    if n == 0
    then (if shift == 0 then rm else if shift == 3 then so else 0)
    else byte_shifted rm shift n

-- An immediate, rotated and cut to 16 bits. A rotation by 0 takes in what the machine makes of a shift
-- to the left by 32.
abbrev pub rotated_immediate : Target → (so : ℕ) → ℕ
rotated_immediate t so =
    let v = so % 256 in
    let n = so / 256 % 16 * 2 in
    if n == 0 then bit_or v (t.wide_shl v 32 % word_size) % 65536 else rotated v n % 65536

-- The operand of an encoding, in arithmetic.
abbrev pub operand : Target → (r rdest so i : ℕ) → ℕ
operand t r rdest so i =
    if is_set i
    then rotated_immediate t so
    else if is_set (so / 16 % 2)
    then shifted_by_register r rdest so
    else shifted_by_amount r so

asr_byte : (t : Target) (rm n : ℕ) → rm < 256 → n < 32 → asr t rm n ≡ rm / 2 ^ n
asr_byte t rm n byte short = asr_positive t rm n (omega arith) short

-- The amounts `rs` and `n` of a shift by a register.
abbrev by_amounts : (rm rs n shift : ℕ) → ℕ
by_amounts rm rs n shift =
    if n == 0
    then rm
    else if shift == 3
    then rm / 2 ^ rs
    else if ltb n 32
    then (if shift == 0 then rm * 2 ^ n % 65536 else rm / 2 ^ n)
    else if shift == 2
    then 65535
    else 0

module _ (t : Target) (rm rs n c : ℕ) (byte : rm < 256) (field : rs < 16) where
  by_zero : rm / 2 ^ 0 ≡ rm
  by_zero = omega arith

  by_amounts_lem :
      (shift : ℕ) → shift < 4 → (shift_by_register t rm rs n shift c).0 ≡ by_amounts rm rs n shift
  unfolding shift_by_register
  by_amounts_lem zero kind = ground arith
  by_amounts_lem (suc zero) kind = ground arith
  by_amounts_lem (suc (suc zero)) kind =
      ground (arith, asr_byte t rm n byte, div-le_self rm (2 ^ n))
  by_amounts_lem (suc (suc (suc zero))) kind = elim (Bool-cases (rs == 0)) [
    | inl z ↦ (let same : rs ≡ 0 = ground arith in rw same (ground (arith, by_zero)))
    | inr z ↦ ground (arith, asr_byte t rm rs byte (omega arith), div-le_self rm (2 ^ rs))
  ]
  by_amounts_lem (suc (suc (suc (suc shift)))) kind = absurd (omega arith)

amount : (rdest rs : ℕ) → rs < 16 → u8 (bit_or (rdest <<< 4) rs) ≡ (rdest % 16 * 16 + rs) % 256
amount rdest rs field = omega (arith, bit_or_fields 4 rdest rs field)

register_lem :
    (t : Target) (r rdest so c : ℕ)
    → so < 4096
    → (shift_by_register t
        (u8 r)
        ((so >>> 8) % 16)
        (u8 (bit_or (rdest <<< 4) ((so >>> 8) % 16)))
        ((so >>> 5) % 4)
        c).0
      ≡ shifted_by_register r rdest so
register_lem t r rdest so c field =
    let rs = so / 256 % 16 in
    by_amounts_lem t (r % 256) rs (u8 (bit_or (rdest <<< 4) rs)) c (omega arith) (omega arith)
      (so / 32 % 4) (omega arith)
    ∙ ap (λ (n : ℕ). by_amounts (r % 256) rs n (so / 32 % 4)) (amount rdest rs (omega arith))

amount-zero :
    (t : Target) (cycle so rm shift c : ℕ)
    → shift < 4
    → (shift_by_immediate t cycle so rm 0 shift c).0
      ≡ (if shift == 0 then rm else if shift == 3 then so else 0)
unfolding shift_by_immediate
amount-zero t cycle so rm shift c kind = ground arith

amount_lem :
    (t : Target) (cycle so rm n shift c : ℕ)
    → rm < 256
    → n < 32
    → shift < 4
    → (shift_by_immediate t cycle so rm n shift c).0 ≡ (
        if n == 0
        then (if shift == 0 then rm else if shift == 3 then so else 0)
        else byte_shifted rm shift n)
amount_lem t cycle so rm n shift c byte short kind = elim (Bool-cases (n == 0)) [
  | inl z ↦ (let same : n ≡ 0 = ground arith in rw same (amount-zero t cycle so rm shift c kind))
  | inr z ↦ rw z (shift_by_immediate_lem t cycle so rm shift n c byte kind (ground arith) short)
]

immediate_lem : (t : Target) (so c : ℕ) → (shift_immediate t so c).0 ≡ rotated_immediate t so
unfolding shift_immediate
immediate_lem t so c = elim (Bool-cases (so / 256 % 16 * 2 == 0)) [
  | inl z ↦
      let same : so / 256 % 16 * 2 ≡ 0 = ground arith in rw same (ap u16 (ror_by_zero t (so % 256)))
  | inr z ↦
      rw z (
        ap u16
          (ror_lem t (so % 256) (so / 256 % 16 * 2) (omega arith) (ground arith) (omega arith)))
]

-- The operand that the code takes.
pub operand_lem :
    (t : Target) (cycle r rdest so i c : ℕ)
    → so < 4096
    → (chosen t cycle r rdest so i c).0 ≡ operand t r rdest so i
operand_lem t cycle r rdest so i c field = elim (Bool-cases (is_set i)) [
  | inl e ↦ (let e' : is_clear i ≡ false = ground arith in rw (e, e') (immediate_lem t so c))
  | inr e ↦
      let e' : is_clear i ≡ true = ground arith in
      elim (Bool-cases (is_set (so / 16 % 2))) [
        | inl b ↦ rw (e, e', b) (register_lem t r rdest so c field)
        | inr b ↦
            rw (e, e', b)
              (amount_lem t cycle so (r % 256) (so / 128 % 32) (so / 32 % 4) c (omega arith)
                (omega arith) (omega arith))
      ]
]
