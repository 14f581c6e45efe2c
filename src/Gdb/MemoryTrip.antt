-- ===== src/Gdb/MemoryTrip.antt =====
-- The commands X and m of gdb_protocol.c: what is written is read.
use progs.Prelude.{
  ℕ, ◌+◌, ◌*◌, ◌<◌, ◌≤◌, ◌≡◌, refl, ap, ap₂, ◌∙◌, Bool, false, arith, ltb, List, [], ◌∷◌,
}
use progs.Prelude.Word.{word_size, u32}
use progs.Prelude.Lists.{length}
use progs.Util.{Target}
use progs.Memory.{Memory}
use progs.Memory.Outcome.{IsAllocated, Fits}
use progs.Memory.Layout.{IsBytes, ReversesHalves, put_byte}
use progs.Gdb.{Gdb, replied, hex_bytes}
use progs.Gdb.Handlers.{read_memory, address_and_size}
use progs.Gdb.Commands.{answered}
use progs.Gdb.Reading.{bytes_at, read_memory_lem}
use progs.Gdb.Writing.{put_bytes, AllBytes}

pub before-put_bytes :
    (m : Memory) (a i : ℕ) (bytes : List ℕ) → i < a → (put_bytes m a bytes).memo i ≡ m.memo i
before-put_bytes m a i [] below = refl
before-put_bytes m a i (b ∷ bytes) below =
    before-put_bytes (put_byte m a b) (a + 1) i bytes (omega arith) ∙ ground arith

bytes_at-put_bytes :
    (m : Memory) (a : ℕ) (bytes : List ℕ) → bytes_at (put_bytes m a bytes) a (length bytes) ≡ bytes
bytes_at-put_bytes m a [] = refl
bytes_at-put_bytes m a (b ∷ bytes) =
    ap₂ ◌∷◌ (before-put_bytes (put_byte m a b) (a + 1) a bytes (omega arith) ∙ ground arith)
      (bytes_at-put_bytes (put_byte m a b) (a + 1) bytes)

pub put_bytes-IsBytes :
    (m : Memory) (a : ℕ) (bytes : List ℕ)
    → IsBytes m
    → AllBytes bytes
    → IsBytes (put_bytes m a bytes)
put_bytes-IsBytes m a [] old all = old
put_bytes-IsBytes m a (b ∷ bytes) old (byte, all) =
    put_bytes-IsBytes (put_byte m a b) (a + 1) bytes (λ i. ground (arith, old i)) all

not_long : (n : ℕ) → n ≤ 509 → ltb 509 n ≡ false
not_long n h = ground arith

pub put_bytes-shape :
    (m : Memory) (a : ℕ) (bytes : List ℕ)
    → ((put_bytes m a bytes).size ≡ m.size)
      × ((put_bytes m a bytes).is_big_endian ≡ m.is_big_endian)
put_bytes-shape m a [] = (refl, refl)
put_bytes-shape m a (b ∷ bytes) = put_bytes-shape (put_byte m a b) (a + 1) bytes

-- The command m, where `bytes` were stored in `m` at the address that it asks for.
pub read_memory-put_bytes :
    (t : Target) (target_big_endian : Bool) (data' bytes : List ℕ) (a : ℕ) (m : Memory) (g : Gdb)
    → g.arm.mem ≡ put_bytes m a bytes
    → address_and_size (u32 (t.unassigned g.arm.cycle_count)) data' ≡ (a, length bytes)
    → IsAllocated m
    → IsBytes m
    → ReversesHalves t m
    → 4 * m.size < word_size
    → Fits m a (length bytes)
    → AllBytes bytes
    → length bytes ≤ 509
    → read_memory t target_big_endian data' g ≡ replied tt (answered (hex_bytes bytes) g)
read_memory-put_bytes t target_big_endian data' bytes a m g stored request allocated old host small
      fits all short =
    let (size, order) = put_bytes-shape m a bytes in
    let first =
      read_memory_lem t target_big_endian g (rw (stored, size) allocated)
        (rw stored (put_bytes-IsBytes m a bytes old all)) (rw (stored, order) host)
        (rw (stored, size) small) data' a (length bytes) request (rw (stored, size) fits) in
    let answer : bytes_at g.arm.mem a (length bytes) ≡ bytes =
      rw stored (bytes_at-put_bytes m a bytes) in
    first
    ∙ rw (not_long (length bytes) short)
        (ap (λ (text : List ℕ). replied tt (answered (hex_bytes text) g)) answer)
