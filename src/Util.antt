-- ===== src/Util.antt =====
-- util.h and util.c: bit macros, `asr`, `ror`, `is_big_endian`.
-- What ISO C leaves to the machine is a `Target`: the host's byte order, a shift by 32 or more,
-- and what a local variable holds that was never assigned.
pub mod Shift
pub mod Fields
use progs.Prelude.{ℕ, ◌-◌, ◌+◌, ◌*◌, ◌%◌, ◌^◌, Bool, bit_and, bit_or, ltb, if◌then◌else◌, is_set}
use progs.Prelude.Word.{u32, sub32, not32, ◌<<<◌, ◌>>>◌, test_bit}

pub record Target : Type 0 where
  pub host_big_endian : Bool
  -- `x << n` and `x >> n` on uint32_t at `n >= 32`.
  pub wide_shl : ℕ → ℕ → ℕ
  pub wide_shr : ℕ → ℕ → ℕ
  -- An unassigned local, at a given cycle.
  pub unassigned : ℕ → ℕ

-- `x << n` and `x >> n` on uint32_t.
unfoldable pub shl : Target → ℕ → ℕ → ℕ
shl t x n = if ltb n 32 then u32 (x <<< n) else u32 (t.wide_shl x n)

unfoldable pub shr : Target → ℕ → ℕ → ℕ
shr t x n = if ltb n 32 then x >>> n else u32 (t.wide_shr x n)

abbrev pub get_bit : ℕ → ℕ → ℕ
get_bit x i = test_bit x i

unfoldable pub set_bit : ℕ → ℕ → ℕ
set_bit x i = bit_or x (1 <<< i)

unfoldable pub clr_bit : ℕ → ℕ → ℕ
clr_bit x i = bit_and x (not32 (1 <<< i))

-- `~0` is -1, so `~0 >> k` is `~0` again and the mask is the `h - l + 1` low bits.
unfoldable pub get_bits : ℕ → ℕ → ℕ → ℕ
get_bits x h l = bit_and (x >>> l) (2 ^ (h - l + 1) - 1)

-- The `x & (~0 << (h + 1))` part keeps the bits above `h`.
unfoldable pub set_bits : ℕ → ℕ → ℕ → ℕ → ℕ
set_bits x h l bits =
    bit_or (bit_or (bit_and x (2 ^ l - 1)) (bit_and x (not32 (2 ^ (h + 1) - 1)))) (u32 (bits <<< l))

unfoldable pub reverse_2 : ℕ → ℕ
reverse_2 x = bit_or ((x % 256) <<< 8) ((x >>> 8) % 256)

-- Of a uint32_t.
unfoldable pub reverse_4 : ℕ → ℕ
reverse_4 x =
    bit_or
      (bit_or (bit_or ((x % 256) <<< 24) (((x >>> 8) % 256) <<< 16)) (((x >>> 16) % 256) <<< 8))
      ((x >>> 24) % 256)

unfoldable pub asr : Target → ℕ → ℕ → ℕ
asr t value shift =
    bit_or (shr t value shift)
      (if is_set (get_bit value 31) then shl t 0xFFFFFFFF (sub32 32 shift) else 0)

unfoldable pub ror : Target → ℕ → ℕ → ℕ
ror t value rotation = bit_or (shr t value rotation) (shl t value (sub32 32 rotation))

abbrev pub is_big_endian : Target → Bool
is_big_endian t = t.host_big_endian
