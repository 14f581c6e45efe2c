-- ===== src/Memory/Endian.antt =====
-- What `reverse_endianess` returns on each host.
use progs.Prelude.{ℕ, ◌+◌, ◌*◌, ◌/◌, ◌%◌, ◌<◌, ◌≡◌, arith, if◌then◌else◌}
use progs.Prelude.Word.{word_size}
use progs.Prelude.Masks.{bit_or_fields}
use progs.Util.{Target, reverse_2, reverse_4}
use progs.Memory.{reverse_endianess}

-- A word is reversed byte by byte, on either host.
pub reverse_word :
    (t : Target) (v : ℕ)
    → v < word_size
    → reverse_endianess t v 32
      ≡ v % 256 * 16777216 + v / 256 % 256 * 65536 + v / 65536 % 256 * 256 + v / 16777216
unfolding reverse_endianess
reverse_word t v h = ground arith

-- A half is swapped by a little-endian host only.
pub reverse_half :
    (t : Target) (v : ℕ)
    → v < 65536
    → reverse_endianess t v 16 ≡ (if t.host_big_endian then 0 else v % 256 * 256 + v / 256)
unfolding reverse_endianess
reverse_half t v h = ground arith

pub reverse_byte :
    (t : Target) (v : ℕ) → v < 256 → reverse_endianess t v 8 ≡ (if t.host_big_endian then 0 else v)
unfolding reverse_endianess
reverse_byte t v h = ground arith

-- The macros of util.h reverse a half and a word as `reverse_endianess` does, a half on a
-- little-endian host alone.
pub reverse_endianess-reverse :
    (t : Target) (h v : ℕ)
    → h < 65536
    → v < word_size
    → (reverse_endianess t h 16 ≡ (if t.host_big_endian then 0 else reverse_2 h))
      × (reverse_endianess t v 32 ≡ reverse_4 v)
unfolding reverse_2 reverse_4
reverse_endianess-reverse t h v half word = (
  ground (arith, reverse_half t h half, bit_or_fields 8 (h % 256) (h / 256 % 256)),
  ground (
    arith,
    reverse_word t v word,
    bit_or_fields 24 (v % 256) (v / 256 % 256 * 65536),
    bit_or_fields 16 (v % 256 * 256 + v / 256 % 256) (v / 65536 % 256 * 256),
    bit_or_fields 8 (v % 256 * 65536 + v / 256 % 256 * 256 + v / 65536 % 256) (v / 16777216 % 256),
  ),
)
