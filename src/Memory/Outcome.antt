-- ===== src/Memory/Outcome.antt =====
-- What each access of memory.c comes to: refused, outside the block, or done.
use progs.Prelude.{ℕ, ◌+◌, ◌-◌, ◌*◌, ◌%◌, ◌≤◌, ◌<◌, ◌≡◌, ◌||◌, arith, ltb, if◌then◌else◌}
use progs.Prelude.Word.{word_size}
use progs.Util.{Target}
use progs.Memory.{
  Memory, Access, done, refused, fault, load, store, memory_read_byte, memory_read_half,
  memory_read_word, memory_write_byte, memory_write_half, memory_write_word,
}

-- A block whose size in bytes does not wrap size_t.
abbrev pub IsAllocated : Memory → Type 0
IsAllocated m = 4 * m.size < 18446744073709551616

-- `n` bytes from address `a` lie in the block.
abbrev pub Fits : Memory → ℕ → ℕ → Type 0
Fits m a n = a + n ≤ 4 * m.size

-- How an access ends, without its result.
pub data Outcome : Type 0 where
  completed turned_down overrun : Outcome

abbrev pub outcome : {A : Type 0} → Access A → Outcome
outcome (done _) = completed
outcome refused = turned_down
outcome fault = overrun

-- The outcome of an access to `n` bytes at `a`. The size test lets one word more than the block
-- through.
abbrev pub expected : Memory → ℕ → ℕ → Outcome
expected m a n =
    if ltb (4 - n) (a % 4) || ltb (4 * m.size + 3) a
    then turned_down
    else if ltb (4 * m.size) (a + n)
    then overrun
    else completed

pub load-done : (m : Memory) (i : ℕ) → IsAllocated m → i < 4 * m.size → load m i ≡ done (m.memo i)
unfolding load
load-done m i w h = ground arith

module _ (t : Target) (m : Memory) (a : ℕ) (w : IsAllocated m) (small : a < word_size) where
  -- A byte access is turned down past the word after the block and overruns in that word.
  byte_outcome :
      (v : ℕ)
      → (outcome (memory_read_byte t m a) ≡ expected m a 1)
        × (outcome (memory_write_byte t m a v) ≡ expected m a 1)
  unfolding memory_read_byte memory_write_byte load store
  byte_outcome v = ground arith

  half_outcome :
      (v : ℕ)
      → (outcome (memory_read_half t m a) ≡ expected m a 2)
        × (outcome (memory_write_half t m a v) ≡ expected m a 2)
  unfolding memory_read_half memory_write_half load store
  half_outcome v = ground arith

  word_outcome :
      (v : ℕ)
      → (outcome (memory_read_word t m a) ≡ expected m a 4)
        × (outcome (memory_write_word t m a v) ≡ expected m a 4)
  unfolding memory_read_word memory_write_word load store
  word_outcome v = ground arith

  -- The six accesses of memory.c end as `expected` says: at address `a`, for `n` bytes, they are
  -- turned down (-1) when `a % 4` is above `4 - n` or `a` is past the word after the block, run
  -- outside the block when `a` is in that word, and are done otherwise. The block is one whose
  -- byte count does not wrap size_t.
  pub access_outcomes :
      (v : ℕ)
      → (outcome (memory_read_byte t m a) ≡ expected m a 1)
        × (outcome (memory_write_byte t m a v) ≡ expected m a 1)
        × (outcome (memory_read_half t m a) ≡ expected m a 2)
        × (outcome (memory_write_half t m a v) ≡ expected m a 2)
        × (outcome (memory_read_word t m a) ≡ expected m a 4)
        × (outcome (memory_write_word t m a v) ≡ expected m a 4)
  access_outcomes v = (
    (byte_outcome v).0,
    (byte_outcome v).1,
    (half_outcome v).0,
    (half_outcome v).1,
    (word_outcome v).0,
    (word_outcome v).1,
  )
