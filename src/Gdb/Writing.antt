-- ===== src/Gdb/Writing.antt =====
-- The command X of gdb_protocol.c: bytes written to the memory, with their escapes.
use progs.Prelude.{
  ℕ, ◌+◌, ◌*◌, ◌<◌, ◌≡◌, refl, Bool, true, Bool-cases, inl, inr, arith, ltb, ◌==◌, if◌then◌else◌,
  some, List, [], ◌∷◌, ◌++◌,
}
use progs.Prelude.Word.{word_size, u32}
use progs.Prelude.Lists.{length, ++_assoc}
use progs.Util.{Target}
use progs.Memory.{Memory, memory_get_size}
use progs.Memory.Outcome.{IsAllocated, Fits}
use progs.Memory.Layout.{ReversesHalves, put_byte, write_byte-done}
use progs.Gdb.{Gdb, replied, gdb_send_data}
use progs.Gdb.Text.{ok, e02, after}
use progs.Gdb.Handlers.{unescaped, binary_loop, write_memory_binary, address_and_size}
use progs.Gdb.Commands.{answered, send_lem}

-- How gdb sends a byte: `}`, `#` and `$` are escaped.
abbrev pub escaped : ℕ → List ℕ
escaped b =
    if b == 125
    then 125 ∷ 93 ∷ []
    else if b == 35
    then 125 ∷ 3 ∷ []
    else if b == 36
    then 125 ∷ 4 ∷ []
    else b ∷ []

abbrev pub escapes : List ℕ → List ℕ
escapes [] = []
escapes (b ∷ bytes) = escaped b ++ escapes bytes

unescaped-escaped :
    (t : Target) (target_big_endian : Bool) (b : ℕ) (s : List ℕ)
    → unescaped t target_big_endian (escaped b ++ s) ≡ some (b, s)
unescaped-escaped t target_big_endian b [] = ground arith
unescaped-escaped t target_big_endian b (c ∷ s) = ground arith

-- `bytes` at the addresses from `a` on.
abbrev pub put_bytes : Memory → (a : ℕ) → List ℕ → Memory
put_bytes m a [] = m
put_bytes m a (b ∷ bytes) = put_bytes (put_byte m a b) (a + 1) bytes

abbrev pub AllBytes : List ℕ → Type 0
AllBytes [] = Unit {0}
AllBytes (b ∷ bytes) = (b < 256) × AllBytes bytes

abbrev pub with_memory : Memory → Gdb → Gdb
with_memory m g = record g { arm = record (g.arm) { mem = m } }

module _ (t : Target) (target_big_endian : Bool) where
  binary_loop_lem :
      (bytes : List ℕ) (a : ℕ) (s : List ℕ) (g : Gdb)
      → IsAllocated g.arm.mem
      → ReversesHalves t g.arm.mem
      → 4 * g.arm.mem.size < word_size
      → Fits g.arm.mem a (length bytes)
      → AllBytes bytes
      → binary_loop t target_big_endian (length bytes) a (escapes bytes ++ s) g
        ≡ replied true (with_memory (put_bytes g.arm.mem a bytes) g)
  unfolding binary_loop
  binary_loop_lem [] a s g allocated host small fits all = refl
  binary_loop_lem (b ∷ bytes) a s g allocated host small fits (byte, all) =
      let next : u32 (a + 1) ≡ a + 1 = omega arith in
      rw
        (
          ++_assoc (escaped b) (escapes bytes) s,
          unescaped-escaped t target_big_endian b (escapes bytes ++ s),
          write_byte-done t g.arm.mem a allocated (omega arith) b byte host (omega arith),
          next,
        )
        (binary_loop_lem bytes (a + 1) s (with_memory (put_byte g.arm.mem a b) g) allocated host
          small (omega arith) all)

  -- The command X, with `bytes` escaped as gdb does it, from a well-formed request for an address
  -- with room for all of them in a block of less than 2 ^ 32 bytes, on a little-endian host or
  -- with big-endian memory: if the address is below the size of the memory in words, the bytes are
  -- stored in their order and the answer is OK; if it is not, nothing is stored and the answer is
  -- E02.
  pub write_memory_binary_lem :
      (data' bytes s : List ℕ) (a : ℕ) (g : Gdb)
      → address_and_size (u32 (t.unassigned g.arm.cycle_count)) data' ≡ (a, length bytes)
      → after 58 data' ≡ escapes bytes ++ s
      → IsAllocated g.arm.mem
      → ReversesHalves t g.arm.mem
      → 4 * g.arm.mem.size < word_size
      → Fits g.arm.mem a (length bytes)
      → AllBytes bytes
      → write_memory_binary t target_big_endian data' g
        ≡ replied tt (
            if ltb a g.arm.mem.size
            then answered ok (with_memory (put_bytes g.arm.mem a bytes) g)
            else answered e02 g)
  unfolding write_memory_binary memory_get_size gdb_send_data
  write_memory_binary_lem data' bytes s a g request content allocated host small fits all =
      elim (Bool-cases (ltb a g.arm.mem.size)) [
        | inl below ↦
            rw (request, below, content, binary_loop_lem bytes a s g allocated host small fits all)
              (send_lem ok (with_memory (put_bytes g.arm.mem a bytes) g) (omega arith))
        | inr above ↦ rw (request, above) (send_lem e02 g (omega arith))
      ]
