-- ===== src/MemoryTest/Results.antt =====
-- What memory_test.c prints on a host of either byte order.
use progs.Prelude.{ℕ, ◌≡◌, refl, Bool, true, false, if◌then◌else◌, List, [], ◌∷◌}
use progs.Util.{Target}
use progs.Memory.{
  done, load, store, memory_create, reverse_endianess, memory_read_byte, memory_read_half,
  memory_read_word, memory_write_byte, memory_write_half, memory_write_word,
}
use progs.MemoryTest.{compare, compare_with_sim, read_tests, write_tests, main}

abbrev all_succeed : List Bool
all_succeed = true ∷ true ∷ true ∷ true ∷ true ∷ true ∷ true ∷ true ∷ []

abbrev half_fail : List Bool
half_fail = true ∷ true ∷ false ∷ false ∷ true ∷ true ∷ false ∷ false ∷ []

module _ (shl shr : ℕ → ℕ → ℕ) (unassigned : ℕ → ℕ) (content : ℕ → ℕ → ℕ) where
  either :
      (big : Bool)
      → main
          (record {
            host_big_endian = big;
            wide_shl = shl;
            wide_shr = shr;
            unassigned = unassigned;
          })
          content
        ≡ done (if big then half_fail else all_succeed)
  unfolding main read_tests write_tests compare compare_with_sim memory_read_byte memory_read_half
      memory_read_word memory_write_byte memory_write_half memory_write_word load store
      memory_create reverse_endianess
  either true = refl
  either false = refl

-- On a little-endian host all eight tests succeed, whatever the fresh blocks hold. On a big-endian
-- host the four tests on the memory of the other byte order fail.
pub main_lem :
    (t : Target) (content : ℕ → ℕ → ℕ)
    → main t content ≡ done (if t.host_big_endian then half_fail else all_succeed)
main_lem t content = either t.wide_shl t.wide_shr t.unassigned content t.host_big_endian
