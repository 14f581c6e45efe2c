-- ===== src/Instruction/Shifter.antt =====
-- `update_shifter_operand`: which operand an encoding gives.
use progs.Prelude.{
  ℕ, ◌+◌, ◌-◌, ◌*◌, ◌/◌, ◌%◌, ◌^◌, ◌<◌, ◌≡◌, ap, inl, inr, arith, bit_or, ◌==◌, if◌then◌else◌,
  is_set, is_clear, Bool-cases,
}
use progs.Prelude.Word.{word_size, u8, ◌>>>◌, ◌<<<◌}
use progs.Util.{Target, ror}
use progs.Util.Shift.{IsUsual, ror_lem, ror-zero, asr_positive}
use progs.Core.{ArmCore, ok}
use progs.Core.RegisterFile.{reg_at, read-ok}
use progs.Instruction.{
  Shifted, shift_by_register, shift_by_immediate, shift_immediate, update_shifter_operand,
}
use native.Mathlib.Nat.{div-le_self}

-- `v` rotated right by `r` in 32 bits.
abbrev pub rotated : ℕ → ℕ → ℕ
rotated v r = v % 2 ^ r * 2 ^ (32 - r) + v / 2 ^ r

ror-rotated : (t : Target) (v r : ℕ) → IsUsual t → v < word_size → r < 32 → ror t v r ≡ rotated v r
ror-rotated t v r usual fits h = elim (Bool-cases (r == 0)) [
  | inl e ↦ (let z : r ≡ 0 = ground arith in rw (z, ror-zero t v usual fits) (omega arith))
  | inr e ↦ ror_lem t v r fits (ground arith) h
]

-- An immediate is its low byte rotated right by twice the other four bits, and then cut to 16
-- bits; its carry out is the carry flag at rotation 0 and 0 at any other.
pub shift_immediate_lem :
    (t : Target) (so c : ℕ)
    → IsUsual t
    → so < 4096
    → ((shift_immediate t so c).0 ≡ rotated (so % 256) (so / 256 * 2) % 65536)
      × ((shift_immediate t so c).1 ≡ (if so / 256 == 0 then c else 0))
unfolding shift_immediate
shift_immediate_lem t so c usual h =
    let field : so / 256 % 16 ≡ so / 256 = omega arith in
    ground (
      arith,
      ror-rotated t (so % 256) (so / 256 * 2) usual (omega arith) (omega arith),
      ap (λ (x : ℕ). ror t (so % 256) (x * 2)) field,
    )

-- The low byte `rm` shifted by `n` as the code shifts it: LSL, LSR, ASR, ROR for `shift` 0 to 3.
abbrev pub byte_shifted : (rm shift n : ℕ) → ℕ
byte_shifted rm shift n =
    if shift == 0
    then rm * 2 ^ n % 65536
    else if shift == 3
    then rotated rm n % 65536
    else rm / 2 ^ n

module _ (t : Target) (cycle so rm shift n c : ℕ) (byte : rm < 256) (kind : shift < 4) (pos : 0 < n)
    (short : n < 32) where
  -- A register byte shifted by a constant from 1 to 31: LSL and ROR are cut to 16 bits, and ASR is
  -- LSR, since the byte has no sign bit.
  pub shift_by_immediate_lem :
      (shift_by_immediate t cycle so rm n shift c).0 ≡ byte_shifted rm shift n
  unfolding shift_by_immediate
  shift_by_immediate_lem = ground (
    arith,
    asr_positive t rm n (omega arith) short,
    ror_lem t rm n (omega arith) pos short,
    div-le_self rm (2 ^ n),
  )

-- The register operand of an encoding, from the value `r` of the register it names.
abbrev pub chosen : Target → (cycle r rdest so i c : ℕ) → Shifted
chosen t cycle r rdest so i c =
    let shift = (so >>> 5) % 4 in
    let rs = (so >>> 8) % 16 in
    if is_clear i
    then (if is_set ((so >>> 4) % 2)
        then shift_by_register t (u8 r) rs (u8 (bit_or (rdest <<< 4) rs)) shift c
        else shift_by_immediate t cycle so (u8 r) ((so >>> 7) % 32) shift c)
    else shift_immediate t so c

pub update-ok :
    (t : Target) (p : ArmCore) (rdest so i c : ℕ)
    → update_shifter_operand t rdest so i c p
      ≡ ok (chosen t p.cycle_count (reg_at p (so % 16)) rdest so i c) p
unfolding update_shifter_operand
update-ok t p rdest so i c = ground (arith, read-ok p (so % 16))

register-lt :
    (t : Target) (rm rs4 rs7 shift c : ℕ)
    → rm < 256
    → (shift_by_register t rm rs4 rs7 shift c).0 < 65536
unfolding shift_by_register
register-lt t rm rs4 rs7 shift c h = ground (arith, div-le_self rm (2 ^ rs7))

immediate-lt :
    (t : Target) (cycle so rm n shift c : ℕ)
    → rm < 256
    → so < 65536
    → (shift_by_immediate t cycle so rm n shift c).0 < 65536
unfolding shift_by_immediate
immediate-lt t cycle so rm n shift c h half = ground (arith, div-le_self rm (2 ^ n))

pub chosen-lt :
    (t : Target) (cycle r rdest so i c : ℕ) → so < 65536 → (chosen t cycle r rdest so i c).0 < 65536
unfolding shift_immediate
chosen-lt t cycle r rdest so i c half = ground (
  arith,
  register-lt t (u8 r) ((so >>> 8) % 16) (u8 (bit_or (rdest <<< 4) ((so >>> 8) % 16)))
      ((so >>> 5) % 4) c (omega arith),
  immediate-lt t cycle so (u8 r) ((so >>> 7) % 32) ((so >>> 5) % 4) c (omega arith) half,
)

-- A plain register operand (bits 11 to 4 clear) is the low byte of the register, and carries the
-- carry flag out.
pub plain_register :
    (t : Target) (p : ArmCore) (rdest so c : ℕ)
    → so < 16
    → update_shifter_operand t rdest so 0 c p ≡ ok (reg_at p so % 256, c) p
unfolding update_shifter_operand shift_by_immediate
plain_register t p rdest so c h = ground (arith, read-ok p so)
