-- ===== src/Prelude/Bits.antt =====
-- `bit_and`, `bit_or` and `bit_xor` act on each bit by itself.
use Prim.Native.Nat.{
  ℕ, zero, suc, ◌+◌, ◌-◌, ◌*◌, ◌/◌, ◌%◌, ◌^◌, ◌≤◌, ◌<◌, min, max, bit_and, bit_or, bit_xor, digits,
  bitwise, differ, bit_and-bitwise, bit_or-bitwise, bit_xor-bitwise,
}
use mathlib.Core.Path.{◌≡◌, refl, ap, sym, ◌∙◌}
use native.Mathlib.Omega.{arith}
use native.Mathlib.Nat.{le_refl, pow-succ', two-pow-succ, div-div-eq-div-mul}
use progs.Prelude.Word.{test_bit}

-- An operation given by its value `z` on a left operand 0 and by `f` on each pair of digits.
module _ (z : ℕ → ℕ) (f : ℕ → ℕ → ℕ) where
  spare_round : (n a b : ℕ) → a ≤ n → digits z f (suc n) a b ≡ digits z f n a b
  spare_round zero a b h = ap (λ (x : ℕ). digits z f 1 x b) (below_one a h)
    where
      below_one : (x : ℕ) → x ≤ 0 → x ≡ 0
      below_one x low = omega arith
  spare_round (suc n) zero b h = refl
  spare_round (suc n) (suc a) b h =
      ap (λ (high : ℕ). high * 2 + f (suc a % 2) (b % 2))
        (spare_round n (suc a / 2) (b / 2) (omega arith))

  spare_rounds : (k n a b : ℕ) → a ≤ n → digits z f (k + n) a b ≡ digits z f n a b
  spare_rounds zero n a b h =
      let same : 0 + n ≡ n = omega arith in ap (λ (rounds : ℕ). digits z f rounds a b) same
  spare_rounds (suc k) n a b h =
      let same : suc k + n ≡ suc (k + n) = omega arith in
      ap (λ (rounds : ℕ). digits z f rounds a b) same
      ∙ spare_round (k + n) a b (omega arith)
      ∙ spare_rounds k n a b h

  -- The lowest digit and the rest, if `z` itself is made of digits.
  lowest_digit :
      (split : (b : ℕ) → z b ≡ z (b / 2) * 2 + f 0 (b % 2)) (a b : ℕ)
      → bitwise z f a b ≡ bitwise z f (a / 2) (b / 2) * 2 + f (a % 2) (b % 2)
  lowest_digit split zero b = split b
  lowest_digit split (suc a) b =
      let half = suc a / 2 in
      let enough : a ≡ (a - half) + half = omega arith in
      ap (λ (n : ℕ). digits z f n half (b / 2) * 2 + f (suc a % 2) (b % 2)) enough
      ∙ ap (λ (high : ℕ). high * 2 + f (suc a % 2) (b % 2))
          (spare_rounds (a - half) half half (b / 2) (le_refl half))

pub bit_or_step : (a b : ℕ) → bit_or a b ≡ bit_or (a / 2) (b / 2) * 2 + max (a % 2) (b % 2)
bit_or_step a b =
    rw (bit_or-bitwise, bit_or-bitwise) (lowest_digit (λ y. y) max (λ y. omega arith) a b)

pub bit_and_step : (a b : ℕ) → bit_and a b ≡ bit_and (a / 2) (b / 2) * 2 + min (a % 2) (b % 2)
bit_and_step a b =
    rw (bit_and-bitwise, bit_and-bitwise) (lowest_digit (λ y. 0) min (λ y. omega arith) a b)

differ_lem : (x y : ℕ) → differ x y ≡ (x - y) + (y - x)
differ_lem zero y = omega arith
differ_lem (suc x) zero = omega arith
differ_lem (suc x) (suc y) = omega (arith, differ_lem x y)

pub bit_xor_step : (a b : ℕ) → bit_xor a b ≡ bit_xor (a / 2) (b / 2) * 2 + (a % 2 + b % 2) % 2
bit_xor_step a b = omega (
  arith,
  bit_xor-bitwise a b,
  bit_xor-bitwise (a / 2) (b / 2),
  lowest_digit (λ y. y) differ (λ y. omega arith) a b,
  differ_lem (a % 2) (b % 2),
)

-- Bit `i + 1` of `x` is bit `i` of `x / 2`.
pub div-pow-suc : (x i : ℕ) → x / 2 ^ suc i ≡ x / 2 / 2 ^ i
div-pow-suc x i = rw pow-succ' (sym (div-div-eq-div-mul x 2 (2 ^ i)))

pub test_bit-suc : (x i : ℕ) → test_bit x (suc i) ≡ test_bit (x / 2) i
test_bit-suc x i = ap (λ (t : ℕ). t % 2) (div-pow-suc x i)

pub test_bit-and : (i a b : ℕ) → test_bit (bit_and a b) i ≡ min (test_bit a i) (test_bit b i)
test_bit-and zero a b = omega (arith, bit_and_step a b)
test_bit-and (suc i) a b =
    let half : bit_and a b / 2 ≡ bit_and (a / 2) (b / 2) = omega (arith, bit_and_step a b) in
    rw (div-pow-suc (bit_and a b) i, div-pow-suc a i, div-pow-suc b i, half)
      (test_bit-and i (a / 2) (b / 2))

pub test_bit-or : (i a b : ℕ) → test_bit (bit_or a b) i ≡ max (test_bit a i) (test_bit b i)
test_bit-or zero a b = omega (arith, bit_or_step a b)
test_bit-or (suc i) a b =
    let half : bit_or a b / 2 ≡ bit_or (a / 2) (b / 2) = omega (arith, bit_or_step a b) in
    rw (div-pow-suc (bit_or a b) i, div-pow-suc a i, div-pow-suc b i, half)
      (test_bit-or i (a / 2) (b / 2))

pub test_bit-xor : (i a b : ℕ) → test_bit (bit_xor a b) i ≡ (test_bit a i + test_bit b i) % 2
test_bit-xor zero a b = omega (arith, bit_xor_step a b)
test_bit-xor (suc i) a b =
    let half : bit_xor a b / 2 ≡ bit_xor (a / 2) (b / 2) = omega (arith, bit_xor_step a b) in
    rw (div-pow-suc (bit_xor a b) i, div-pow-suc a i, div-pow-suc b i, half)
      (test_bit-xor i (a / 2) (b / 2))

pub bit_and-le : (n a b : ℕ) → a ≤ n → bit_and a b ≤ a
bit_and-le zero zero b h = simp bit_and-bitwise (omega arith)
bit_and-le zero (suc a) b h = absurd (omega arith)
bit_and-le (suc n) zero b h = simp bit_and-bitwise (omega arith)
bit_and-le (suc n) (suc a) b h =
    omega (arith, bit_and_step (suc a) b, bit_and-le n (suc a / 2) (b / 2) (omega arith))

pub bit_or-lt-pow : (k a b : ℕ) → a < 2 ^ k → b < 2 ^ k → bit_or a b < 2 ^ k
bit_or-lt-pow zero zero zero p q = omega (arith, bit_or-bitwise 0 0)
bit_or-lt-pow zero zero (suc b) p q = absurd (omega arith)
bit_or-lt-pow zero (suc a) b p q = absurd (omega arith)
bit_or-lt-pow (suc k) a b p q = omega (
  arith,
  bit_or_step a b,
  two-pow-succ k,
  bit_or-lt-pow k (a / 2) (b / 2) (omega (arith, two-pow-succ k)) (omega (arith, two-pow-succ k)),
)

pub bit_xor-lt-pow : (k a b : ℕ) → a < 2 ^ k → b < 2 ^ k → bit_xor a b < 2 ^ k
bit_xor-lt-pow zero zero zero p q = omega (arith, bit_xor-bitwise 0 0)
bit_xor-lt-pow zero zero (suc b) p q = absurd (omega arith)
bit_xor-lt-pow zero (suc a) b p q = absurd (omega arith)
bit_xor-lt-pow (suc k) a b p q = omega (
  arith,
  bit_xor_step a b,
  two-pow-succ k,
  bit_xor-lt-pow k (a / 2) (b / 2) (omega (arith, two-pow-succ k)) (omega (arith, two-pow-succ k)),
)
