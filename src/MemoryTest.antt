-- ===== src/MemoryTest.antt =====
-- memory_test.c: the program that tests memory.c on the host it runs on. What it prints is the list
-- of its results; an access outside a block is Memory's `fault`.
pub mod Results
use progs.Prelude.{
  ℕ, zero, suc, ◌+◌, ◌-◌, ◌/◌, ◌%◌, Bool, true, false, not, ◌==◌, ◌!=◌, if◌then◌else◌, List, [],
  ◌∷◌, ◌++◌,
}
use progs.Prelude.Lists.{get_or}
use progs.Prelude.Word.{u8, u16, u32, sub32}
use progs.Util.{Target, is_big_endian}
use progs.Memory.{
  Memory, Access, done, refused, fault, ◌>>=◌, to_bytes, memory_create, memory_read_byte,
  memory_read_half, memory_read_word, memory_write_byte, memory_write_half, memory_write_word,
}

-- What an assignment through a pointer leaves when the access is refused: the old value.
abbrev pub or_old : {A : Type 0} → A → Access A → Access A
or_old old (done a) = done a
or_old old refused = done old
or_old old fault = fault

-- A uint16_t and the two bytes that the host keeps it in.
abbrev pub half_bytes : Target → ℕ → List ℕ
half_bytes t v = if t.host_big_endian then v / 256 ∷ v % 256 ∷ [] else v % 256 ∷ v / 256 ∷ []

-- `j` starts at one end and goes towards the other.
abbrev pub first_j : (size : ℕ) → (reverse : Bool) → ℕ
first_j size reverse = if reverse then sub32 size 1 else 0

abbrev pub next_j : ℕ → (reverse : Bool) → ℕ
next_j j reverse = if reverse then sub32 j 1 else j + 1

-- The loop of `compare` with the rounds left.
abbrev pub compare_loop : (rounds i j : ℕ) → (a b : List ℕ) → (reverse : Bool) → Bool
compare_loop zero i j a b reverse = true
compare_loop (suc n) i j a b reverse =
    let rest = compare_loop n (i + 1) (next_j j reverse) a b reverse in
    if get_or a i 0 != get_or b j 0 then false else rest

unfoldable pub compare : (a b : List ℕ) → (size : ℕ) → (reverse : Bool) → Bool
compare a b size reverse = compare_loop size 0 (first_j size reverse) a b reverse

abbrev pub word_value : ℕ
word_value = 0x11223344

abbrev pub half_value : ℕ
half_value = 0x5566

module _ (t : Target) where
  -- The loop of `compare_with_sim` with the rounds left.
  abbrev pub sim_loop : (rounds i j value : ℕ) → List ℕ → Memory → (reverse : Bool) → Access Bool
  sim_loop zero i j value a m reverse = done true
  sim_loop (suc n) i j value a m reverse = do
    value' ← or_old value (memory_read_byte t m j)
    let rest = sim_loop n (i + 1) (next_j j reverse) value' a m reverse
    if get_or a i 0 != value' then done false else rest

  unfoldable pub compare_with_sim : List ℕ → Memory → (size : ℕ) → (reverse : Bool) → Access Bool
  compare_with_sim a m size reverse =
      sim_loop size 0 (first_j size reverse) (u8 (t.unassigned 0)) a m reverse

  -- `m[0]` and `m[1]`, and the one of the host's byte order and the other.
  abbrev pub Pair : Type 0
  Pair = Memory × Memory

  abbrev pub same : Pair → Memory
  same (m0, m1) = if is_big_endian t then m1 else m0

  abbrev pub different : Pair → Memory
  different (m0, m1) = if is_big_endian t then m0 else m1

  -- The loop that writes the bytes of the word to both memories.
  abbrev pub write_loop : (bytes : List ℕ) → (i : ℕ) → Pair → Access Pair
  write_loop [] i m = done m
  write_loop (b ∷ bytes) i (m0, m1) = do
    m0' ← or_old m0 (memory_write_byte t m0 i b)
    m1' ← or_old m1 (memory_write_byte t m1 i b)
    write_loop bytes (i + 1) (m0', m1')

  -- The word and the half at address 0 against the bytes that were written.
  unfoldable pub read_tests :
      (word_read half_read : ℕ) → Memory → (reverse : Bool) → Access (List Bool × (ℕ × ℕ))
  read_tests word_read half_read m reverse = do
    word_read' ← or_old word_read (memory_read_word t m 0)
    half_read' ← or_old half_read (memory_read_half t m 0)
    done (
      compare (to_bytes t word_value) (to_bytes t word_read') 4 reverse
          ∷ compare (to_bytes t word_value) (half_bytes t half_read') 2 reverse
          ∷ [],
      (word_read', half_read'),
    )

  -- A word and a half are written at address 0, and their bytes are read.
  unfoldable pub write_tests : Memory → (reverse : Bool) → Access (List Bool)
  write_tests m reverse = do
    m' ← or_old m (memory_write_word t m 0 word_value)
    word_result ← compare_with_sim (to_bytes t word_value) m' 4 reverse
    m'' ← or_old m' (memory_write_half t m' 0 half_value)
    half_result ← compare_with_sim (half_bytes t half_value) m'' 2 reverse
    done (word_result ∷ half_result ∷ [])

  -- `main` after the creation of the memories, whose blocks hold `content` of 0 and of 1.
  unfoldable pub main : (content : ℕ → ℕ → ℕ) → Access (List Bool)
  main content = do
    m ←
        write_loop (to_bytes t word_value) 0
          (memory_create (content 0) 4 false, memory_create (content 1) 4 true)
    let word_read = u32 (t.unassigned 0)
    let half_read = u16 (t.unassigned 0)
    (reads, (word_read', half_read')) ← read_tests word_read half_read (same m) false
    (reads', _) ← read_tests word_read' half_read' (different m) true
    writes ← write_tests (same m) false
    writes' ← write_tests (different m) true
    done (reads ++ (reads' ++ (writes ++ writes')))
