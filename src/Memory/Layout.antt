-- ===== src/Memory/Layout.antt =====
-- Where the bytes of a half and of a word go, and what accesses inside the block return.
use progs.Prelude.{ℕ, ◌+◌, ◌*◌, ◌/◌, ◌%◌, ◌≤◌, ◌<◌, ◌≡◌, ◌⊎◌, true, false, arith, if◌then◌else◌}
use progs.Prelude.Word.{word_size}
use progs.Util.{Target}
use progs.Memory.{
  Memory, done, store, update, memory_read_byte, memory_read_half, memory_read_word,
  memory_write_byte, memory_write_half, memory_write_word,
}
use progs.Memory.Outcome.{IsAllocated, Fits, load-done}
use progs.Memory.Endian.{reverse_word, reverse_half, reverse_byte}

abbrev pub IsBytes : Memory → Type 0
IsBytes m = (i : ℕ) → m.memo i < 256

-- The word at `a` in the byte order of the memory.
abbrev pub word_at : Memory → ℕ → ℕ
word_at m a =
    let b = m.memo in
    if m.is_big_endian
    then b a * 16777216 + b (a + 1) * 65536 + b (a + 2) * 256 + b (a + 3)
    else b (a + 3) * 16777216 + b (a + 2) * 65536 + b (a + 1) * 256 + b a

abbrev pub half_at : Memory → ℕ → ℕ
half_at m a =
    let b = m.memo in if m.is_big_endian then b a * 256 + b (a + 1) else b (a + 1) * 256 + b a

-- The memory with a word stored at `a`.
abbrev pub put_word : Memory → ℕ → ℕ → Memory
put_word m a v =
    let b0 = v % 256 in
    let b1 = v / 256 % 256 in
    let b2 = v / 65536 % 256 in
    let b3 = v / 16777216 in
    record m {
      memo =
          if m.is_big_endian
          then update (update (update (update m.memo a b3) (a + 1) b2) (a + 2) b1) (a + 3) b0
          else update (update (update (update m.memo a b0) (a + 1) b1) (a + 2) b2) (a + 3) b3;
    }

-- Halves are right on a little-endian host, and in big-endian memory on any.
abbrev pub ReversesHalves : Target → Memory → Type 0
ReversesHalves t m = (t.host_big_endian ≡ false) ⊎ (m.is_big_endian ≡ true)

module _ (t : Target) (m : Memory) (a : ℕ) (w : IsAllocated m) (small : a < word_size) where
  pub read_word-done :
      IsBytes m → a % 4 ≡ 0 → Fits m a 4 → memory_read_word t m a ≡ done (word_at m a)
  unfolding memory_read_word
  read_word-done bytes aligned fits = ground (
    arith,
    load-done m a w,
    load-done m (a + 1) w,
    load-done m (a + 2) w,
    load-done m (a + 3) w,
    bytes a,
    bytes (a + 1),
    bytes (a + 2),
    bytes (a + 3),
    reverse_word t (b a * 16777216 + b (a + 1) * 65536 + b (a + 2) * 256 + b (a + 3)),
  )
    where
      open m use {memo as b}

  pub write_word-done :
      (v : ℕ)
      → v < word_size
      → a % 4 ≡ 0
      → Fits m a 4
      → memory_write_word t m a v ≡ done (put_word m a v)
  unfolding memory_write_word store
  write_word-done v hv aligned fits = ground (arith, reverse_word t v)

abbrev pub put_half : Memory → ℕ → ℕ → Memory
put_half m a v = record m {
  memo =
      if m.is_big_endian
      then update (update m.memo a (v / 256)) (a + 1) (v % 256)
      else update (update m.memo a (v % 256)) (a + 1) (v / 256);
}

abbrev pub put_byte : Memory → ℕ → ℕ → Memory
put_byte m a v = record m { memo = update m.memo a v }

module _ (t : Target) (m : Memory) (a : ℕ) (w : IsAllocated m) (small : a < word_size) where
  pub read_half-done :
      IsBytes m
      → ReversesHalves t m
      → a % 4 ≤ 2
      → Fits m a 2
      → memory_read_half t m a ≡ done (half_at m a)
  unfolding memory_read_half
  read_half-done bytes host aligned fits = ground (
    arith,
    load-done m a w,
    load-done m (a + 1) w,
    bytes a,
    bytes (a + 1),
    reverse_half t (b a * 256 + b (a + 1)),
  )
    where
      open m use {memo as b}

  pub write_half-done :
      (v : ℕ)
      → v < 65536
      → ReversesHalves t m
      → a % 4 ≤ 2
      → Fits m a 2
      → memory_write_half t m a v ≡ done (put_half m a v)
  unfolding memory_write_half store
  write_half-done v hv host aligned fits = ground (arith, reverse_half t v)

  pub read_byte-done :
      IsBytes m → ReversesHalves t m → Fits m a 1 → memory_read_byte t m a ≡ done (m.memo a)
  unfolding memory_read_byte
  read_byte-done bytes host fits =
      ground (arith, load-done m a w, bytes a, reverse_byte t (m.memo a))

  pub write_byte-done :
      (v : ℕ)
      → v < 256
      → ReversesHalves t m
      → Fits m a 1
      → memory_write_byte t m a v ≡ done (put_byte m a v)
  unfolding memory_write_byte store
  write_byte-done v hv host fits = ground (arith, reverse_byte t v)
