-- ===== src/Memory/RoundTrip.antt =====
-- What is written is read back, and the other addresses keep their bytes.
use progs.Prelude.{
  ℕ, zero, suc, ◌+◌, ◌-◌, ◌/◌, ◌%◌, ◌^◌, ◌≤◌, ◌<◌, ◌≡◌, ◌≢◌, ◌⊎◌, arith, if◌then◌else◌, ap, ◌∙◌,
}
use progs.Prelude.Word.{word_size}
use progs.Util.{Target}
use progs.Memory.{
  Memory, done, ◌>>=◌, memory_read_byte, memory_read_half, memory_read_word, memory_write_byte,
  memory_write_half, memory_write_word,
}
use progs.Memory.Outcome.{IsAllocated, Fits}
use progs.Memory.Layout.{
  IsBytes, ReversesHalves, word_at, half_at, put_word, put_half, put_byte, read_word-done,
  write_word-done, read_half-done, write_half-done, read_byte-done, write_byte-done,
}

pub put_word-IsBytes : (m : Memory) (a v : ℕ) → v < word_size → IsBytes m → IsBytes (put_word m a v)
put_word-IsBytes m a v hv bytes i = ground (arith, bytes i)

put_half-IsBytes : (m : Memory) (a v : ℕ) → v < 65536 → IsBytes m → IsBytes (put_half m a v)
put_half-IsBytes m a v hv bytes i = ground (arith, bytes i)

put_byte-IsBytes : (m : Memory) (a v : ℕ) → v < 256 → IsBytes m → IsBytes (put_byte m a v)
put_byte-IsBytes m a v hv bytes i = ground (arith, bytes i)

pub word_at-put_word : (m : Memory) (a v : ℕ) → v < word_size → word_at (put_word m a v) a ≡ v
word_at-put_word m a v hv = ground arith

half_at-put_half : (m : Memory) (a v : ℕ) → v < 65536 → half_at (put_half m a v) a ≡ v
half_at-put_half m a v hv = ground arith

byte-put_word :
    (m : Memory) (a v k : ℕ)
    → v < word_size
    → k < 4
    → (put_word m a v).memo (a + k) ≡ v / 256 ^ (if m.is_big_endian then 3 - k else k) % 256
byte-put_word m a v zero hv hk = ground arith
byte-put_word m a v (suc zero) hv hk = ground arith
byte-put_word m a v (suc (suc zero)) hv hk = ground arith
byte-put_word m a v (suc (suc (suc zero))) hv hk = ground arith
byte-put_word m a v (suc (suc (suc (suc k)))) hv hk = absurd (omega arith)

module _ (t : Target) (m : Memory) (a : ℕ) (w : IsAllocated m) (small : a < word_size)
    (bytes : IsBytes m) where
  -- A word written at an aligned address inside the block is read back there, in either byte order
  -- and on either host; every byte outside the four keeps its value.
  pub read_word-write_word :
      (v : ℕ)
      → v < word_size
      → a % 4 ≡ 0
      → Fits m a 4
      → (m' : Memory) × (memory_write_word t m a v ≡ done m')
        × (memory_read_word t m' a ≡ done v)
        × ((i : ℕ) → (i < a) ⊎ (a + 4 ≤ i) → m'.memo i ≡ m.memo i)
  read_word-write_word v hv aligned fits = (
    put_word m a v,
    write_word-done t m a w small v hv aligned fits,
    read_word-done t (put_word m a v) a w small (put_word-IsBytes m a v hv bytes) aligned fits
        ∙ ap done (word_at-put_word m a v hv),
    λ i far. ground arith,
  )

  -- The same of a half, at an address that is not 3 modulo 4; on a big-endian host only where the
  -- memory is big-endian too.
  pub read_half-write_half :
      (v : ℕ)
      → v < 65536
      → ReversesHalves t m
      → a % 4 ≤ 2
      → Fits m a 2
      → (m' : Memory) × (memory_write_half t m a v ≡ done m')
        × (memory_read_half t m' a ≡ done v)
        × ((i : ℕ) → (i < a) ⊎ (a + 2 ≤ i) → m'.memo i ≡ m.memo i)
  read_half-write_half v hv host aligned fits = (
    put_half m a v,
    write_half-done t m a w small v hv host aligned fits,
    read_half-done t (put_half m a v) a w small (put_half-IsBytes m a v hv bytes) host aligned fits
        ∙ ap done (half_at-put_half m a v hv),
    λ i far. ground arith,
  )

  -- The same of a byte.
  pub read_byte-write_byte :
      (v : ℕ)
      → v < 256
      → ReversesHalves t m
      → Fits m a 1
      → (m' : Memory) × (memory_write_byte t m a v ≡ done m')
        × (memory_read_byte t m' a ≡ done v)
        × ((i : ℕ) → i ≢ a → m'.memo i ≡ m.memo i)
  read_byte-write_byte v hv host fits = (
    put_byte m a v,
    write_byte-done t m a w small v hv host fits,
    read_byte-done t (put_byte m a v) a w small (put_byte-IsBytes m a v hv bytes) host fits
        ∙ ground arith,
    λ i far. ground arith,
  )

  -- Byte accesses see the layout of a word: after a word is written at `a`, its most significant
  -- byte is at `a` in big-endian memory and at `a + 3` in little-endian memory, and so on.
  pub read_byte-write_word :
      (v k : ℕ)
      → v < word_size
      → ReversesHalves t m
      → a % 4 ≡ 0
      → Fits m a 4
      → k < 4
      → (memory_write_word t m a v >>= λ m'. memory_read_byte t m' (a + k))
        ≡ done (v / 256 ^ (if m.is_big_endian then 3 - k else k) % 256)
  read_byte-write_word v k hv host aligned fits hk =
      rw
        (
          write_word-done t m a w small v hv aligned fits,
          read_byte-done t (put_word m a v) (a + k) w (omega arith)
              (put_word-IsBytes m a v hv bytes) host (omega arith),
        )
        (ap done (byte-put_word m a v k hv hk))
