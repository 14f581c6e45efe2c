-- ===== src/Prelude/Masks.antt =====
-- Masks, fields, complements and single bits as arithmetic.
use Prim.Native.Nat.{
  ℕ, zero, suc, ◌+◌, ◌-◌, ◌*◌, ◌/◌, ◌%◌, ◌^◌, ◌≤◌, ◌<◌, bit_and, bit_or, bit_and-bitwise,
  bit_or-bitwise,
}
use mathlib.Core.Path.{◌≡◌, refl, ap}
use native.Mathlib.Omega.{arith}
use native.Mathlib.Nat.{le_refl, zero-div, one-le-pow, div-add-mod', two-pow-succ}
use progs.Prelude.Word.{test_bit}
use progs.Prelude.Tests.{◌==◌, if◌then◌else◌}
use progs.Prelude.Bits.{bit_or_step, bit_and_step, div-pow-suc, test_bit-suc}

pub bit_and-zero : (n a : ℕ) → a ≤ n → bit_and a 0 ≡ 0
bit_and-zero n zero h = simp bit_and-bitwise refl
bit_and-zero zero (suc a) h = absurd (omega arith)
bit_and-zero (suc n) (suc a) h =
    omega (arith, bit_and_step (suc a) 0, bit_and-zero n (suc a / 2) (omega arith))

-- The remainder by a power of two, digit by digit.
pub mod-pow-suc : (x k : ℕ) → x % 2 ^ suc k ≡ x / 2 % 2 ^ k * 2 + x % 2
mod-pow-suc x k = omega (
  arith,
  div-pow-suc x k,
  div-add-mod' x (2 ^ suc k),
  div-add-mod' (x / 2) (2 ^ k),
  ap (λ (t : ℕ). x / 2 / 2 ^ k * t) (two-pow-succ k),
  ap (λ (t : ℕ). t * 2 ^ suc k) (div-pow-suc x k),
)

-- A mask of `k` low ones is the remainder by `2 ^ k`.
pub bit_and_mask : (k a : ℕ) → bit_and a (2 ^ k - 1) ≡ a % 2 ^ k
bit_and_mask zero a = omega (arith, bit_and-zero a a (le_refl a))
bit_and_mask (suc k) a = omega (
  arith,
  bit_and_step a (2 ^ suc k - 1),
  two-pow-succ k,
  bit_and_mask k (a / 2),
  mod-pow-suc a k,
  one-le-pow k 2 (omega arith),
  ap (bit_and (a / 2)) half,
)
  where
    half : (2 ^ suc k - 1) / 2 ≡ 2 ^ k - 1
    half = omega (arith, two-pow-succ k)

pub bit_or-zero : (n a : ℕ) → a ≤ n → bit_or a 0 ≡ a
bit_or-zero n zero h = simp bit_or-bitwise refl
bit_or-zero zero (suc a) h = absurd (omega arith)
bit_or-zero (suc n) (suc a) h =
    omega (arith, bit_or_step (suc a) 0, bit_or-zero n (suc a / 2) (omega arith))

-- `q * 2 ^ k | r` is a sum where `r` fits `k` bits.
pub bit_or_fields : (k q r : ℕ) → r < 2 ^ k → bit_or (q * 2 ^ k) r ≡ q * 2 ^ k + r
bit_or_fields zero q r fits = omega (
  arith,
  bit_or-zero q q (le_refl q),
  ap (λ (t : ℕ). bit_or (q * 2 ^ 0) t) (lt-one r fits),
  ap (λ (t : ℕ). bit_or t 0) (times-one q),
)
  where
    lt-one : (n : ℕ) → n < 1 → n ≡ 0
    lt-one n h = omega arith

    times-one : (n : ℕ) → n * 2 ^ 0 ≡ n
    times-one n = omega arith
bit_or_fields (suc k) q r fits = omega (
  arith,
  bit_or_step (q * 2 ^ suc k) r,
  two-pow-succ k,
  ap (λ (t : ℕ). q * t) (two-pow-succ k),
  bit_or_fields k q (r / 2) (omega (arith, two-pow-succ k)),
  ap (λ (t : ℕ). bit_or t (r / 2)) half,
)
  where
    half : q * 2 ^ suc k / 2 ≡ q * 2 ^ k
    half = omega (arith, ap (λ (t : ℕ). q * t) (two-pow-succ k))

-- `~x` flips each bit.
pub test_bit_complement :
    (k i x : ℕ) → x < 2 ^ k → i < k → test_bit (2 ^ k - 1 - x) i ≡ 1 - test_bit x i
test_bit_complement zero i x p q = absurd (omega arith)
test_bit_complement (suc k) zero x p q = omega (arith, two-pow-succ k)
test_bit_complement (suc k) (suc i) x p q =
    let half : (2 ^ suc k - 1 - x) / 2 ≡ 2 ^ k - 1 - x / 2 = omega (arith, two-pow-succ k) in
    rw (div-pow-suc (2 ^ suc k - 1 - x) i, div-pow-suc x i, half)
      (test_bit_complement k i (x / 2) (omega (arith, two-pow-succ k)) (omega arith))

-- `b << n` has bit `n` alone, for a bit `b`.
pub test_bit-shl : (n i b : ℕ) → b < 2 → test_bit (b * 2 ^ n) i ≡ (if i == n then b else 0)
test_bit-shl zero zero b h = omega arith
test_bit-shl zero (suc i) b h =
    let none_left : b * 2 ^ 0 / 2 ≡ 0 = omega arith in
    ground
      (arith, test_bit-suc (b * 2 ^ 0) i, ap (λ (t : ℕ). test_bit t i) none_left, zero-div (2 ^ i))
test_bit-shl (suc n) zero b h = ground (arith, ap (λ (t : ℕ). b * t) (two-pow-succ n))
test_bit-shl (suc n) (suc i) b h =
    let half : b * 2 ^ suc n / 2 ≡ b * 2 ^ n =
      omega (arith, ap (λ (t : ℕ). b * t) (two-pow-succ n)) in
    ground (
      arith,
      test_bit-suc (b * 2 ^ suc n) i,
      ap (λ (t : ℕ). test_bit t i) half,
      test_bit-shl n i b h,
    )

-- `x & 0xFFFFFFFD`
pub bit_and_fffffffd : (x : ℕ) → x < 2 ^ 32 → bit_and x 0xFFFFFFFD ≡ x - x / 2 % 2 * 2
bit_and_fffffffd x h =
    omega (
      arith,
      bit_and_step x 0xFFFFFFFD,
      bit_and_step (x / 2) 0x7FFFFFFE,
      bit_and_mask 30 (x / 2 / 2),
    )

pub bit_or_comm : (n a b : ℕ) → a ≤ n → b ≤ n → bit_or a b ≡ bit_or b a
bit_or_comm zero a b p q =
    let ea : a ≡ 0 = omega arith in let eb : b ≡ 0 = omega arith in rw (ea, eb) refl
bit_or_comm (suc n) a b p q = omega (
  arith,
  bit_or_step a b,
  bit_or_step b a,
  bit_or_comm n (a / 2) (b / 2) (omega arith) (omega arith),
)

pub bit_or_self : (n a : ℕ) → a ≤ n → bit_or a a ≡ a
bit_or_self n zero h = simp bit_or-bitwise refl
bit_or_self zero (suc a) h = absurd (omega arith)
bit_or_self (suc n) (suc a) h =
    omega (arith, bit_or_step (suc a) (suc a), bit_or_self n (suc a / 2) (omega arith))

pub one-shl-lt : (i k : ℕ) → i < k → 1 * 2 ^ i < 2 ^ k
one-shl-lt i zero h = absurd (omega arith)
one-shl-lt zero (suc k) h = omega (arith, two-pow-succ k, one-le-pow k 2 (omega arith))
one-shl-lt (suc i) (suc k) h =
    omega (arith, two-pow-succ k, two-pow-succ i, one-shl-lt i k (omega arith))
