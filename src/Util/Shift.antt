-- ===== src/Util/Shift.antt =====
-- `asr` and `ror` of util.c against arithmetic.
use progs.Prelude.{
  refl, ℕ, zero, suc, ◌+◌, ◌-◌, ◌*◌, ◌/◌, ◌%◌, ◌^◌, ◌≤◌, ◌<◌, ◌≡◌, ap, ap₂, sym, ◌∙◌, ◌⊎◌, inl, inr,
  true, false, ◌!=◌, bit_or, arith, ltb, Bool-cases, ltb→lt, lt→ltb,
}
use progs.Prelude.Word.{word_size, sub32}
use progs.Prelude.Int.{signed32, IsFloor}
use progs.Prelude.Masks.{bit_or_comm, bit_or_self, bit_or-zero, bit_or_fields}
use native.Mathlib.Decide.{dec_lt}
use progs.Util.{Target, get_bit, shl, shr, asr, ror}
use native.Mathlib.Nat.{
  pow-suc, add-zero, div-add-mod', mod-lt, one-le-pow, mul_comm, div-lt_iff_lt-mul,
  mul-le-mul_right, add-mul, mul_assoc, mul-suc, two-pow-succ, mul-add-mod_self_right,
  mul-add-div_right, mod-eq_of_lt, div-eq_of_lt, div-le_self,
}

pow-add : (a b : ℕ) → 2 ^ (a + b) ≡ 2 ^ a * 2 ^ b
pow-add a zero = rw add-zero (omega arith)
pow-add a (suc b) =
    let e : a + suc b ≡ suc (a + b) = omega arith in
    rw (e, pow-suc, pow-add a b, pow-suc) (omega arith)

pow_split : (r : ℕ) → r ≤ 32 → 2 ^ r * 2 ^ (32 - r) ≡ word_size
pow_split r h =
    let e : r + (32 - r) ≡ 32 = omega arith in sym (pow-add r (32 - r)) ∙ ap (λ (t : ℕ). 2 ^ t) e

below_pow : (r v : ℕ) → r ≤ 32 → v < word_size → v / 2 ^ r < 2 ^ (32 - r)
below_pow r v h fits =
    (div-lt_iff_lt-mul (one-le-pow r 2 (omega arith))).1
      (omega (arith, pow_split r h, mul_comm (2 ^ r) (2 ^ (32 - r))))

-- `v` cut at a power `A` and scaled by the power `B` that makes `A * B` the word size.
scale : (v A B W : ℕ) → 0 < A → A * B ≡ W → (v * B ≡ v / A * W + v % A * B) × (v % A * B + B ≤ W)
scale v A B W pos e = (
  ap (λ (x : ℕ). x * B) (sym (div-add-mod' v A))
      ∙ (add-mul (v / A * A) (v % A) B ∙ ap (λ (x : ℕ). x + v % A * B) (rw (mul_assoc, e))),
  rw (← e) (
      omega (
        arith,
        add-mul (v % A) 1 B,
        mul-le-mul_right {m = v % A + 1} {n = A} B (omega (arith, mod-lt v pos)),
      )),
)

pow_pos : (r : ℕ) → 0 < 2 ^ r
pow_pos r = one-le-pow r 2 (omega arith)

-- The high half of a rotation: the low `r` bits, moved to the top.
shl_low : (t : Target) (v r : ℕ) → 0 < r → r < 32 → shl t v (sub32 32 r) ≡ v % 2 ^ r * 2 ^ (32 - r)
unfolding shl
shl_low t v r p q =
    let e : sub32 32 r ≡ 32 - r = omega arith in
    rw (e, lt→ltb (32 - r) 32 (omega arith))
      (omega (
        arith,
        pow_pos (32 - r),
        scale v (2 ^ r) (2 ^ (32 - r)) word_size (pow_pos r) (pow_split r (omega arith)),
      ))

pub shr_narrow : (t : Target) (v r : ℕ) → r < 32 → shr t v r ≡ v / 2 ^ r
unfolding shr
shr_narrow t v r q = rw (lt→ltb r 32 q)

-- A rotation by 1 to 31 moves the low bits to the top and the others down.
pub ror_lem :
    (t : Target) (v r : ℕ)
    → v < word_size
    → 0 < r
    → r < 32
    → ror t v r ≡ v % 2 ^ r * 2 ^ (32 - r) + v / 2 ^ r
unfolding ror
ror_lem t v r fits p q =
    rw (shl_low t v r p q, shr_narrow t v r q)
      (bit_or_comm (v / 2 ^ r + v % 2 ^ r * 2 ^ (32 - r)) (v / 2 ^ r) (v % 2 ^ r * 2 ^ (32 - r))
          (omega arith) (omega arith)
        ∙ bit_or_fields (32 - r) (v % 2 ^ r) (v / 2 ^ r) (below_pow r v (omega arith) fits))

pub shr_zero : (t : Target) (r : ℕ) → shr t r 0 ≡ r
unfolding shr
shr_zero t r = omega arith

-- A rotation by 0 takes in what the machine makes of a shift to the left by 32.
pub ror_by_zero : (t : Target) (r : ℕ) → ror t r 0 ≡ bit_or r (t.wide_shl r 32 % word_size)
unfolding ror shl
ror_by_zero t r = rw (shr_zero t r) refl

-- A host shifts by 32 to zero, or takes the count modulo 32.
abbrev pub IsUsual : Target → Type 0
IsUsual t = (x : ℕ) → (t.wide_shl x 32 ≡ 0) ⊎ (t.wide_shl x 32 ≡ x)

pub ror-zero : (t : Target) (v : ℕ) → IsUsual t → v < word_size → ror t v 0 ≡ v
unfolding ror shl shr
ror-zero t v usual fits = elim (usual v) [
  | inl e ↦ rw e (omega (arith, bit_or-zero v v (omega arith), ap (λ (x : ℕ). bit_or x 0) (one v)))
  | inr e ↦ rw e (ap₂ bit_or (one v) (omega arith) ∙ bit_or_self v v (omega arith))
]
  where
    one : (x : ℕ) → x / 2 ^ 0 ≡ x
    one x = omega arith

-- `ror` by `32 - r` undoes `ror` by `r`.
pub ror-ror :
    (t : Target) (v r : ℕ) → v < word_size → 0 < r → r < 32 → ror t (ror t v r) (32 - r) ≡ v
ror-ror t v r fits p q =
    let A = 2 ^ r in
    let B = 2 ^ (32 - r) in
    let cut = scale v A B word_size (pow_pos r) (pow_split r (omega arith)) in
    let back : 2 ^ (32 - (32 - r)) ≡ A = ap (λ (x : ℕ). 2 ^ x) {y = r} (omega arith) in
    let high : v / A < B = below_pow r v (omega arith) fits in
    let high_mod : (v % A * B + v / A) % B ≡ v / A =
      rw mul-add-mod_self_right (mod-eq_of_lt high) in
    let high_div : (v % A * B + v / A) / B ≡ v % A =
      rw (mul-add-div_right (pow_pos (32 - r)), div-eq_of_lt high) (omega arith) in
    rw
      (
        ror_lem t v r fits p q,
        ror_lem t (v % A * B + v / A) (32 - r) (omega (arith, cut, high)) (omega arith)
            (omega arith),
        back,
        high_mod,
        high_div,
      )
      (div-add-mod' v A)

last_of_product : (a b : ℕ) → 0 < a → 0 < b → (b - 1) * a + (a - 1) ≡ a * b - 1
last_of_product a zero p q = absurd (omega arith)
last_of_product a (suc b) p q =
    let e : suc b - 1 ≡ b = omega arith in rw e (omega (arith, mul_comm a b, mul-suc a b))

low_ones : (s : ℕ) → s ≤ 32 → 0xFFFFFFFF % 2 ^ s ≡ 2 ^ s - 1
low_ones s h =
    let A = 2 ^ s in
    let B = 2 ^ (32 - s) in
    let whole : (B - 1) * A + (A - 1) ≡ 0xFFFFFFFF =
      omega (arith, last_of_product A B (pow_pos s) (pow_pos (32 - s)), pow_split s h) in
    rw (← whole)
      (mul-add-mod_self_right (B - 1) A (A - 1) ∙ mod-eq_of_lt (omega (arith, pow_pos s)))

shl_ones :
    (t : Target) (s : ℕ)
    → 0 < s
    → s < 32
    → shl t 0xFFFFFFFF (sub32 32 s) ≡ (2 ^ s - 1) * 2 ^ (32 - s)
shl_ones t s p q =
    rw (shl_low t 0xFFFFFFFF s p q) (ap (λ (x : ℕ). x * 2 ^ (32 - s)) (low_ones s (omega arith)))

pub asr_negative :
    (t : Target) (v s : ℕ)
    → 2147483648 ≤ v
    → v < word_size
    → 0 < s
    → s < 32
    → asr t v s ≡ (2 ^ s - 1) * 2 ^ (32 - s) + v / 2 ^ s
unfolding asr
asr_negative t v s neg fits p q =
    let top : (get_bit v 31 != 0) ≡ true = ground arith in
    rw (top, shl_ones t s p q, shr_narrow t v s q)
      (bit_or_comm ((2 ^ s - 1) * 2 ^ (32 - s) + v / 2 ^ s) (v / 2 ^ s) ((2 ^ s - 1) * 2 ^ (32 - s))
          (omega arith) (omega arith)
        ∙ bit_or_fields (32 - s) (2 ^ s - 1) (v / 2 ^ s) (below_pow s v (omega arith) fits))

pub asr_positive : (t : Target) (v s : ℕ) → v < 2147483648 → s < 32 → asr t v s ≡ v / 2 ^ s
unfolding asr
asr_positive t v s small q =
    let top : (get_bit v 31 != 0) ≡ false = ground arith in
    rw (top, shr_narrow t v s q) (bit_or-zero (v / 2 ^ s) (v / 2 ^ s) (omega arith))

mul_pred : (a b : ℕ) → 0 < a → (a - 1) * b + b ≡ a * b
mul_pred zero b p = absurd (omega arith)
mul_pred (suc a) b p =
    let e : suc a - 1 ≡ a = omega arith in
    rw e (omega (arith, add-mul a 1 b, ap (λ (t : ℕ). t * b) (suc_eq a)))
  where
    suc_eq : (n : ℕ) → suc n ≡ n + 1
    suc_eq n = omega arith

rescale : (c B A W : ℕ) → c ≤ B → B * A ≡ W → (B - c) * A + c * A ≡ W
rescale c B A W h e =
    let whole : B - c + c ≡ B = omega arith in
    sym (add-mul (B - c) c A) ∙ (ap (λ (t : ℕ). t * A) whole ∙ e)

-- A negative word stays negative: the shifted value has its top bit.
high_half :
    (v s : ℕ)
    → 2147483648 ≤ v
    → 0 < s
    → s < 32
    → 2147483648 ≤ (2 ^ s - 1) * 2 ^ (32 - s) + v / 2 ^ s
high_half v s neg p q =
    let half_split : 2 ^ (31 - s) * 2 ^ s ≡ 2147483648 =
      sym (pow-add (31 - s) s) ∙ ap (λ (x : ℕ). 2 ^ x) {y = 31} (omega arith) in
    let double : 2 ^ (32 - s) ≡ 2 ^ (31 - s) + 2 ^ (31 - s) =
      ap (λ (x : ℕ). 2 ^ x) {y = suc (31 - s)} (omega arith) ∙ two-pow-succ (31 - s) in
    elim (dec_lt (v / 2 ^ s) (2 ^ (31 - s))) [
      | yes small ↦ absurd (omega (arith, (div-lt_iff_lt-mul (pow_pos s)).0 small, half_split))
      | no large ↦
          omega
            (arith, mul_pred (2 ^ s) (2 ^ (32 - s)) (pow_pos s), pow_split s (omega arith), double)
    ]

complement-IsFloor :
    (x v d : ℕ)
    → 2147483648 ≤ x
    → 2147483648 ≤ v
    → v < word_size
    → x < word_size
    → word_size - v ≤ (word_size - x) * d
    → (word_size - x) * d < d + (word_size - v)
    → IsFloor (signed32 x) (signed32 v) d
complement-IsFloor x v d hx hv fits fits' low high =
    ground (arith, ap (λ (t : ℕ). t * d) (restore x fits'))
  where
    restore : (n : ℕ) → n < word_size → suc (word_size - n - 1) ≡ word_size - n
    restore n h = omega arith

-- `asr` divides the signed value by `2 ^ s` and rounds towards minus infinity.
pub asr-IsFloor :
    (t : Target) (v s : ℕ)
    → v < word_size
    → s < 32
    → (v < 2147483648) ⊎ (0 < s)
    → IsFloor (signed32 (asr t v s)) (signed32 v) (2 ^ s)
asr-IsFloor t v s fits q side = elim (Bool-cases (ltb v 2147483648)) [
  | inl small ↦ rw (asr_positive t v s (ltb→lt v 2147483648 small) q) (positive_floor small)
  | inr large ↦
      rw (asr_negative t v s (ground arith) fits (ground arith) q)
        (negative_floor (ground arith) (ground arith))
]
  where
    positive_floor : ltb v 2147483648 ≡ true → IsFloor (signed32 (v / 2 ^ s)) (signed32 v) (2 ^ s)
    positive_floor small =
        ground (arith, div-add-mod' v (2 ^ s), mod-lt v (pow_pos s), div-le_self v (2 ^ s))

    negative_floor :
        2147483648 ≤ v
        → 0 < s
        → IsFloor (signed32 ((2 ^ s - 1) * 2 ^ (32 - s) + v / 2 ^ s)) (signed32 v) (2 ^ s)
    negative_floor neg p =
        let A = 2 ^ s in
        let B = 2 ^ (32 - s) in
        let X = (A - 1) * B + v / A in
        let whole : (A - 1) * B + B ≡ word_size =
          omega (arith, pow_split s (omega arith), mul_pred A B (pow_pos s)) in
        let part : v / A < B = below_pow s v (omega arith) fits in
        let scaled : (B - v / A) * A + v / A * A ≡ word_size =
          rescale (v / A) B A word_size (omega arith) (mul_comm B A ∙ pow_split s (omega arith)) in
        let complement : word_size - X ≡ B - v / A = omega arith in
        complement-IsFloor X v A (high_half v s neg p q) neg fits (omega arith)
          (rw complement (omega (arith, div-add-mod' v A, mod-lt v (pow_pos s))))
          (rw complement (omega (arith, div-add-mod' v A, mod-lt v (pow_pos s))))
