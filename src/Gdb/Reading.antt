-- ===== src/Gdb/Reading.antt =====
-- The command m of gdb_protocol.c: bytes of the memory in hexadecimal.
use progs.Prelude.{
  ℕ, zero, suc, ◌+◌, ◌*◌, ◌<◌, ◌≡◌, refl, ap, ◌∙◌, Bool, arith, ltb, if◌then◌else◌, List, [], ◌∷◌,
}
use progs.Prelude.Word.{word_size, u32}
use progs.Prelude.Lists.{length}
use progs.Util.{Target}
use progs.Memory.{Memory}
use progs.Memory.Outcome.{IsAllocated, Fits}
use progs.Memory.Layout.{IsBytes, ReversesHalves, read_byte-done}
use progs.Gdb.{Gdb, replied, outside, hex_bytes}
use progs.Gdb.Handlers.{memory_text, read_memory, address_and_size}
use progs.Gdb.Commands.{answered, send_any}

-- `n` bytes from address `a`.
abbrev pub bytes_at : Memory → (a n : ℕ) → List ℕ
bytes_at m a zero = []
bytes_at m a (suc n) = m.memo a ∷ bytes_at m (a + 1) n

length-hex_bytes : (m : Memory) (a n : ℕ) → length (hex_bytes (bytes_at m a n)) ≡ 2 * n
length-hex_bytes m a zero = refl
length-hex_bytes m a (suc n) = omega (arith, length-hex_bytes m (a + 1) n)

module _ (t : Target) (target_big_endian : Bool) (g : Gdb) (allocated : IsAllocated g.arm.mem)
    (bytes : IsBytes g.arm.mem) (host : ReversesHalves t g.arm.mem)
    (small : 4 * g.arm.mem.size < word_size) where
  memory_text_lem :
      (n a : ℕ)
      → Fits g.arm.mem a n
      → memory_text t target_big_endian n a g ≡ replied (hex_bytes (bytes_at g.arm.mem a n)) g
  unfolding memory_text
  memory_text_lem zero a fits = refl
  memory_text_lem (suc n) a fits =
      let next : u32 (a + 1) ≡ a + 1 = omega arith in
      rw
        (
          read_byte-done t g.arm.mem a allocated (omega arith) bytes host (omega arith),
          next,
          memory_text_lem n (a + 1) (omega arith),
        )
        refl

  -- The command m for `n` bytes inside a block of less than 2 ^ 32 bytes, from a well-formed
  -- request, on a little-endian host or in big-endian memory: no more than 509 bytes are answered
  -- with their digits, and a longer answer is written past the packet's end.
  pub read_memory_lem :
      (data' : List ℕ) (a n : ℕ)
      → address_and_size (u32 (t.unassigned g.arm.cycle_count)) data' ≡ (a, n)
      → Fits g.arm.mem a n
      → read_memory t target_big_endian data' g ≡ (
          if ltb 509 n
          then outside
          else replied tt (answered (hex_bytes (bytes_at g.arm.mem a n)) g))
  unfolding read_memory
  read_memory_lem data' a n request fits =
      let text = hex_bytes (bytes_at g.arm.mem a n) in
      let all = replied tt (answered text g) in
      rw (request, memory_text_lem n a fits)
        (send_any text g
          ∙ ap (λ (b : Bool). if b then outside else all)
              (too_long (length text) (length-hex_bytes g.arm.mem a n)))
    where
      too_long : (k : ℕ) → k ≡ 2 * n → ltb 1019 k ≡ ltb 509 n
      too_long k h = ground arith
