-- ===== src/Util/Fields.antt =====
-- The bit macros of util.h against single bits.
use progs.Prelude.{ℕ, ◌+◌, ◌-◌, ◌/◌, ◌%◌, ◌^◌, ◌<◌, ◌≡◌, arith, ◌==◌, if◌then◌else◌}
use progs.Prelude.Word.{not32, ◌<<<◌}
use progs.Prelude.Bits.{test_bit-and, test_bit-or}
use progs.Prelude.Masks.{bit_and_mask, test_bit-shl, test_bit_complement, one-shl-lt}
use progs.Util.{get_bit, set_bit, clr_bit, get_bits}

-- `set_bit(x, i)` sets bit `i` and keeps the others.
pub get_bit-set_bit : (x i j : ℕ) → get_bit (set_bit x i) j ≡ (if j == i then 1 else get_bit x j)
unfolding set_bit
get_bit-set_bit x i j = ground (arith, test_bit-or j x (1 <<< i), test_bit-shl i j 1 (omega arith))

-- `clr_bit(x, i)` clears bit `i` of a word and keeps the others.
pub get_bit-clr_bit :
    (x i j : ℕ) → i < 32 → j < 32 → get_bit (clr_bit x i) j ≡ (if j == i then 0 else get_bit x j)
unfolding clr_bit
get_bit-clr_bit x i j hi hj = ground (
  arith,
  test_bit-and j x (not32 (1 <<< i)),
  test_bit_complement 32 j (1 <<< i) (one-shl-lt i 32 hi) hj,
  test_bit-shl i j 1 (omega arith),
)

-- `get_bits(x, h, l)` is the field of bits `h` down to `l`.
pub get_bits_lem : (x h l : ℕ) → get_bits x h l ≡ x / 2 ^ l % 2 ^ (h - l + 1)
unfolding get_bits
get_bits_lem x h l = bit_and_mask (h - l + 1) (x / 2 ^ l)
