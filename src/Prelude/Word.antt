-- ===== src/Prelude/Word.antt =====
-- The unsigned words of stdint.h as native numbers, and C's shifts and masks on them.
use Prim.Native.Nat.{ℕ, ◌-◌, ◌+◌, ◌*◌, ◌/◌, ◌%◌, ◌^◌}

abbrev pub word_size : ℕ
word_size = 4294967296

-- A conversion to uint8_t, uint16_t or uint32_t.
abbrev pub u8 : ℕ → ℕ
u8 n = n % 256

abbrev pub u16 : ℕ → ℕ
u16 n = n % 65536

abbrev pub u32 : ℕ → ℕ
u32 n = n % word_size

-- `a - b` on uint32_t, for operands below 2 ^ 32.
abbrev pub sub32 : ℕ → ℕ → ℕ
sub32 a b = (a + word_size - b) % word_size

-- `~a` on uint32_t.
abbrev pub not32 : ℕ → ℕ
not32 a = 4294967295 - a

infixl 75 ◌<<<◌ ◌>>>◌
abbrev pub ◌<<<◌ : ℕ → ℕ → ℕ
x <<< k = x * 2 ^ k

abbrev pub ◌>>>◌ : ℕ → ℕ → ℕ
x >>> k = x / 2 ^ k

-- Bit `i` of `x`.
abbrev pub test_bit : ℕ → ℕ → ℕ
test_bit x i = x / 2 ^ i % 2
