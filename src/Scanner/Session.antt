-- ===== src/Scanner/Session.antt =====
-- Two packets of a debugger, from their characters on the connection: a write and a read of memory.
use progs.Prelude.{
  ℕ, ◌*◌, ◌<◌, ◌≤◌, ◌≡◌, refl, ap, ◌∙◌, Bool, true, arith, lt→ltb, List, [], ◌∷◌, ◌++◌,
}
use progs.Prelude.Word.{word_size, u32}
use progs.Prelude.Lists.{length}
use progs.Util.{Target}
use progs.Memory.{Memory}
use progs.Memory.Outcome.{IsAllocated, Fits}
use progs.Memory.Layout.{IsBytes, ReversesHalves}
use progs.Gdb.{Gdb, Reply, replied, and_then, sent, checksum, framed, hex_bytes}
use progs.Gdb.Text.{ok}
use progs.Gdb.Scan.{hex2}
use progs.Gdb.Handlers.{read_memory, write_memory_binary}
use progs.Gdb.Commands.{answered}
use progs.Gdb.Writing.{escapes, put_bytes, AllBytes, with_memory, write_memory_binary_lem}
use progs.Gdb.MemoryTrip.{read_memory-put_bytes}
use progs.Gdb.Request.{
  Number, value, IsNumber, address_size, address_size-++, address_and_size-address_size,
  after-address_size, is_body-address_size, is_body-escapes,
}
use progs.Gdb.Packet.{handler}
use progs.Gdb.Packet.Checksum.{dispatched, ended}
use progs.Scanner.{yylex}
use progs.Scanner.Tokens.{is_body}
use progs.Scanner.Resync.{yylex-framed}

abbrev pub write_request : (address size : Number) → (bytes : List ℕ) → List ℕ
write_request address size bytes = b'X' ∷ address_size address size (b':' ∷ escapes bytes)

abbrev pub read_request : (address size : Number) → List ℕ
read_request address size = b'm' ∷ address_size address size []

-- The state after an acknowledgement.
abbrev pub acknowledged : Gdb → Gdb
acknowledged g = record g { events = g.events ++ (sent (b'+' ∷ []) ∷ []) }

-- What follows the data of a request in the packet.
abbrev tail_of : List ℕ → List ℕ
tail_of d = 0 ∷ (hex2 (checksum d) ++ (0 ∷ []))

module _ (t : Target) (target_big_endian : Bool) (fuel : ℕ) where
  dispatched-X :
      (data' : List ℕ) (g : Gdb)
      → dispatched t target_big_endian fuel (b'$' ∷ b'X' ∷ data') g
        ≡ write_memory_binary t target_big_endian data' (acknowledged g)
  unfolding handler
  dispatched-X data' g = refl

  dispatched-m :
      (data' : List ℕ) (g : Gdb)
      → dispatched t target_big_endian fuel (b'$' ∷ b'm' ∷ data') g
        ≡ read_memory t target_big_endian data' (acknowledged g)
  unfolding handler
  dispatched-m data' g = refl

module _ (t : Target) (target_big_endian : Bool) (fuel : ℕ) (address size : Number) (bytes : List ℕ)
    (g : Gdb) (is_address : IsNumber address) (is_size : IsNumber size)
    (as_many : value size ≡ length bytes) (allocated : IsAllocated g.arm.mem)
    (old : IsBytes g.arm.mem) (host : ReversesHalves t g.arm.mem)
    (small : 4 * g.arm.mem.size < word_size) (fits : Fits g.arm.mem (value address) (length bytes))
    (all : AllBytes bytes) where
  abbrev stored : Memory
  stored = put_bytes g.arm.mem (value address) bytes

  -- The state after the answer to the write.
  abbrev after_write : Gdb
  after_write = answered ok (with_memory stored (acknowledged g))

  pub write_done :
      value address < g.arm.mem.size
      → dispatched t target_big_endian fuel
          (b'$'
            ∷ ended
                (write_request address size bytes)
                0
                (checksum (write_request address size bytes)))
          g
        ≡ replied tt after_write
  write_done below =
      let z = tail_of (write_request address size bytes) in
      let unassigned = u32 (t.unassigned g.arm.cycle_count) in
      ap (λ (q : List ℕ). dispatched t target_big_endian fuel (b'$' ∷ b'X' ∷ q) g)
        (address_size-++ address size (b':' ∷ escapes bytes) z)
      ∙ dispatched-X t target_big_endian fuel
          (address_size address size (b':' ∷ (escapes bytes ++ z))) g
      ∙ write_memory_binary_lem t target_big_endian
          (address_size address size (b':' ∷ (escapes bytes ++ z))) bytes z (value address)
          (acknowledged g)
          (address_and_size-address_size unassigned address size b':' (escapes bytes ++ z)
              is_address is_size (refl, refl, omega arith)
            ∙ ap (λ (n : ℕ). (value address, n)) as_many)
          (after-address_size address size (escapes bytes ++ z) is_address is_size) allocated host
          small fits all
      ∙ rw (lt→ltb (value address) g.arm.mem.size below) refl

  read_done :
      (h : Gdb)
      → h.arm.mem ≡ stored
      → length bytes ≤ 509
      → dispatched t target_big_endian fuel
          (b'$' ∷ ended (read_request address size) 0 (checksum (read_request address size)))
          h
        ≡ replied tt (answered (hex_bytes bytes) (acknowledged h))
  read_done h same short =
      let z = tail_of (read_request address size) in
      let unassigned = u32 (t.unassigned h.arm.cycle_count) in
      ap (λ (q : List ℕ). dispatched t target_big_endian fuel (b'$' ∷ b'm' ∷ q) h)
        (address_size-++ address size [] z)
      ∙ dispatched-m t target_big_endian fuel (address_size address size z) h
      ∙ read_memory-put_bytes t target_big_endian (address_size address size z) bytes
          (value address) g.arm.mem (acknowledged h) same
          (address_and_size-address_size unassigned address size 0
              (hex2 (checksum (read_request address size)) ++ (0 ∷ [])) is_address is_size
              (refl, refl, omega arith)
            ∙ ap (λ (n : ℕ). (value address, n)) as_many)
          allocated old host small fits all short

  -- A debugger sends a packet X with some bytes for an address, and then a packet m for the same address
  -- and as many bytes, each with its sum, the numbers in hexadecimal digits and the bytes escaped.
  -- The scanner acknowledges both, answers the first with OK and the second with the digits of the
  -- bytes, has stored the bytes at the address, and goes on with what follows. The bytes are at most 509
  -- and fit the block, which is smaller than 2 ^ 32 bytes; the address is below the block's number
  -- of words; the host is little-endian or the memory big-endian.
  pub yylex-write-read :
      value address < g.arm.mem.size
      → length bytes ≤ 509
      → (rest : List ℕ)
      → yylex t target_big_endian fuel
          (framed (write_request address size bytes)
            ++ (framed (read_request address size) ++ rest))
          []
          g
        ≡ yylex t target_big_endian fuel rest []
            (answered (hex_bytes bytes) (acknowledged after_write))
  yylex-write-read below short rest =
      let ends : is_body (escapes bytes) ≡ true = is_body-escapes bytes in
      yylex-framed t target_big_endian fuel (write_request address size bytes)
        (framed (read_request address size) ++ rest) g
        (is_body-address_size address size (b':' ∷ escapes bytes) is_address is_size ends)
      ∙ ap
          (λ (r : Reply (Unit {0})).
            and_then r
              (λ u. yylex t target_big_endian fuel (framed (read_request address size) ++ rest) []))
          (write_done below)
      ∙ yylex-framed t target_big_endian fuel (read_request address size) rest after_write
          (is_body-address_size address size [] is_address is_size refl)
      ∙ ap (λ (r : Reply (Unit {0})). and_then r (λ u. yylex t target_big_endian fuel rest []))
          (read_done after_write refl short)
