-- ===== src/Gdb.antt =====
-- gdb_protocol.c: the debugger's stub. This file has its state, what it sends, and the words it
-- prints and reads in hexadecimal; Gdb/Handlers the commands, Gdb/Packet the packets that come in.
pub mod Text
pub mod Scan
pub mod Handlers
pub mod Packet
pub mod Commands
pub mod Reading
pub mod Continue
pub mod Writing
pub mod Words
pub mod Frame
pub mod Keeps
pub mod General
pub mod RegisterTrip
pub mod MemoryTrip
pub mod Digits
pub mod Request
pub mod Block
pub mod Interpreter
pub mod Program
use progs.Prelude.{
  ℕ, zero, suc, ◌+◌, ◌-◌, ◌%◌, Bool, true, false, not, Option, none, some, ltb, ◌==◌, if◌then◌else◌,
  List, [], ◌∷◌, ◌++◌,
}
use progs.Prelude.Word.{u8}
use progs.Prelude.Lists.{drop, length}
use progs.Util.{Target, is_big_endian}
use progs.Memory.{to_bytes, of_bytes}
use progs.Core.{ArmCore}
use progs.Core
use progs.Gdb.Text.{s04, s05, s10}
use progs.Gdb.Scan.{hex2, scan_hex, Scanned}

-- What goes out of the file descriptor: `Rio_writen` of some bytes, or `shutdown`.
pub data Event : Type 0 where
  sent : List ℕ → Event
  shut : Event

-- `struct gdb_protocol_data`, with the first `len` bytes of its packet, and what was sent. `mem` is
-- the memory of the core, as gdb_scanner is given both.
pub record Gdb : Type 0 where
  pub arm : ArmCore
  pub target_exception : ℕ
  pub packet : List ℕ
  pub events : List Event

-- `outside` is an access outside an array; `aborted` a failed assertion; `running` a loop that has
-- not ended when its fuel has.
pub data Reply (A : Type 0) : Type 0 where
  replied : A → Gdb → Reply A
  outside : Reply A
  aborted : Reply A
  running : Reply A

abbrev pub G : Type 0 → Type 0
G A = Gdb → Reply A

abbrev pub pure : {A : Type 0} → A → G A
pure a g = replied a g

abbrev pub and_then : {A B : Type 0} → Reply A → (A → G B) → Reply B
and_then (replied a g) k = k a g
and_then outside k = outside
and_then aborted k = aborted
and_then running k = running

infixl 5 ◌>>=◌ ◌>>◌
abbrev pub ◌>>=◌ : {A B : Type 0} → G A → (A → G B) → G B
◌>>=◌ m k g = and_then (m g) k

abbrev pub ◌>>◌ : {A B : Type 0} → G A → G B → G B
m >> n = m >>= λ _. n

abbrev pub gets : {A : Type 0} → (Gdb → A) → G A
gets f g = replied (f g) g

-- An operation of the core.
abbrev pub of_run : {A : Type 0} → Gdb → Core.Run A → Reply A
of_run g (Core.ok a p) = replied a (record g { arm = p })
of_run g Core.fault = outside

abbrev pub on_core : {A : Type 0} → Core.M A → G A
on_core m g = of_run g (m g.arm)

abbrev pub some_or_outside : {A : Type 0} → Option A → G A
some_or_outside none g = outside
some_or_outside (some a) g = replied a g

abbrev pub assert : Bool → G (Unit {0})
assert true g = replied tt g
assert false g = aborted

abbrev pub emit : Event → G (Unit {0})
emit e g = replied tt (record g { events = g.events ++ (e ∷ []) })

abbrev pub gdb_send_ack : G (Unit {0})
gdb_send_ack = emit (sent (43 ∷ []))

abbrev pub gdb_require_retransmission : G (Unit {0})
gdb_require_retransmission = emit (sent (45 ∷ []))

abbrev pub gdb_transmit_packet : G (Unit {0})
gdb_transmit_packet g = emit (sent g.packet) g

abbrev pub checksum : List ℕ → ℕ
checksum [] = 0
checksum (c ∷ s) = u8 (c + checksum s)

-- `$`, the data, `#` and two digits.
abbrev pub framed : List ℕ → List ℕ
framed data' = 36 ∷ (data' ++ (35 ∷ hex2 (checksum data')))

-- `data'` is the string in `buffer`, which is `packet + 1`: with the frame and the NUL it must fit
-- the 1024 bytes of the packet.
unfoldable pub gdb_send_buffer : List ℕ → G (Unit {0})
gdb_send_buffer data' g =
    if ltb 1024 (length data' + 5)
    then outside
    else gdb_transmit_packet (record g { packet = framed data' })

unfoldable pub gdb_send_data : List ℕ → G (Unit {0})
gdb_send_data = gdb_send_buffer

unfoldable pub gdb_send_stop_reason : G (Unit {0})
gdb_send_stop_reason = do
  e ← gets (λ g. g.target_exception)
  gdb_send_data (if e == 2 then s04 else if e == 4 then s10 else if e == 5 then s10 else s05)

-- The host's byte order is that of the simulated target.
abbrev pub same_order : Target → (target_big_endian : Bool) → Bool
same_order t target_big_endian =
    if is_big_endian t then target_big_endian else not target_big_endian

-- The bytes of a word in the order in which `i` meets them, and back: `i` goes up or down.
abbrev pub in_order : Bool → List ℕ → List ℕ
in_order true bytes = bytes
in_order false (a ∷ b ∷ c ∷ d ∷ []) = d ∷ c ∷ b ∷ a ∷ []
in_order false bytes = bytes

abbrev pub hex_bytes : List ℕ → List ℕ
hex_bytes [] = []
hex_bytes (b ∷ bytes) = hex2 b ++ hex_bytes bytes

-- The digits that `write_uint32` leaves at `data`, without the NUL. `target_big_endian` is whether
-- BIG_ENDIAN_SIMULATOR is defined.
unfoldable pub write_uint32 : Target → (target_big_endian : Bool) → ℕ → List ℕ
write_uint32 t target_big_endian value =
    hex_bytes (in_order (same_order t target_big_endian) (to_bytes t value))

-- `value` after a conversion that may assign nothing.
abbrev pub scanned_or : ℕ → Option Scanned → ℕ
scanned_or value none = value
scanned_or value (some (v, s)) = v

abbrev pub cons_byte : ℕ → Option (List ℕ) → Option (List ℕ)
cons_byte b none = none
cons_byte b (some bytes) = some (b ∷ bytes)

-- The loop of `read_uint32` with the rounds left; `none` if `data` has left the packet.
abbrev pub read_bytes : ℕ → (value : ℕ) → List ℕ → Option (List ℕ)
read_bytes zero value s = some []
read_bytes (suc n) value [] = none
read_bytes (suc n) value (c ∷ s) =
    let value' = scanned_or value (scan_hex 2 (c ∷ s)) in
    cons_byte (u8 value') (read_bytes n value' (drop 2 (c ∷ s)))

abbrev pub word_of : Target → (target_big_endian : Bool) → Option (List ℕ) → Option ℕ
word_of t target_big_endian none = none
word_of t target_big_endian (some bytes) =
    some (of_bytes t (in_order (same_order t target_big_endian) bytes))

-- `junk` is what the local `value` holds before it is assigned.
unfoldable pub read_uint32 : Target → (target_big_endian : Bool) → (junk : ℕ) → List ℕ → Option ℕ
read_uint32 t target_big_endian junk data' = word_of t target_big_endian (read_bytes 4 junk data')
