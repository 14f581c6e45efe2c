-- ===== src/Tests/Accesses.antt =====
-- Tests of memory.c.
use progs.Prelude.{ℕ, ◌≡◌, ◌⊎◌, ◌≤◌, ◌<◌, refl, true, false, arith}
use progs.Memory.{
  Memory, done, fault, refused, load, memory_read_byte, memory_read_half, memory_read_word,
  memory_write_byte, memory_write_half, memory_write_word, reverse_endianess,
}
use progs.Memory.Outcome.{outcome, expected, access_outcomes}
use progs.Memory.RoundTrip.{read_word-write_word}
use progs.Tests.{host, block, block-IsBytes}

big_word : memory_read_word host (block true 0x11 0x22 0x33 0x44) 0 ≡ done 0x11223344
unfolding memory_read_word load
big_word = refl

little_word : memory_read_word host (block false 0x11 0x22 0x33 0x44) 0 ≡ done 0x44332211
unfolding memory_read_word load reverse_endianess
little_word = refl

past_the_block : memory_read_word host (block true 0 0 0 0) 32 ≡ fault
unfolding memory_read_word load
past_the_block = refl

unaligned_word : memory_read_word host (block true 0 0 0 0) 2 ≡ refused
unfolding memory_read_word
unaligned_word = refl

access_outcomes_example :
    let m = block true 1 2 3 4 in
    (outcome (memory_read_byte host m 32) ≡ expected m 32 1)
    × (outcome (memory_write_byte host m 32 7) ≡ expected m 32 1)
    × (outcome (memory_read_half host m 32) ≡ expected m 32 2)
    × (outcome (memory_write_half host m 32 7) ≡ expected m 32 2)
    × (outcome (memory_read_word host m 32) ≡ expected m 32 4)
    × (outcome (memory_write_word host m 32 7) ≡ expected m 32 4)
access_outcomes_example = access_outcomes host (block true 1 2 3 4) 32 (omega arith) (omega arith) 7

read_word-write_word_example :
    (m' : Memory) × (memory_write_word host (block false 1 2 3 4) 4 0xDEADBEEF ≡ done m')
    × (memory_read_word host m' 4 ≡ done 0xDEADBEEF)
    × ((i : ℕ) → (i < 4) ⊎ (8 ≤ i) → m'.memo i ≡ (block false 1 2 3 4).memo i)
read_word-write_word_example =
    read_word-write_word host (block false 1 2 3 4) 4 (omega arith) (omega arith)
      (block-IsBytes false 1 2 3 4 (omega arith) (omega arith) (omega arith) (omega arith))
      0xDEADBEEF (omega arith) (omega arith) (omega arith)
