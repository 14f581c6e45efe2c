-- ===== src/Gdb/Packet.antt =====
-- gdb_init, gdb_init_data and gdb_packet_analysis of gdb_protocol.c. The lock that the analysis
-- holds around a handler is not modelled: a handler is one step.
pub mod Checksum
pub mod Sound
use progs.Prelude.{
  ℕ, ◌+◌, ◌-◌, Bool, Option, none, some, ltb, ◌==◌, if◌then◌else◌, List, [], ◌∷◌, ◌++◌,
}
use progs.Prelude.Word.{u32}
use progs.Prelude.Lists.{drop, take, set, get_or, length}
use progs.Util.{Target}
use progs.Core.{ArmCore}
use progs.Gdb.{
  G, Gdb, ◌>>=◌, ◌>>◌, gets, checksum, gdb_send_ack, gdb_send_data, gdb_require_retransmission,
  scanned_or,
}
use progs.Gdb.Scan.{scan_hex}
use progs.Gdb.Handlers.{
  cont, kill_request, query, read_general_registers, read_memory, read_register, reason, set_thread,
  step, write_general_registers, write_memory_binary, write_register,
}

abbrev pub gdb_init_data : ArmCore → Gdb
gdb_init_data arm = record { arm = arm; target_exception = 0; packet = []; events = [] }

module _ (t : Target) (target_big_endian : Bool) (fuel : ℕ) where
  -- The table that `gdb_init` fills, at the first character of the command.
  unfoldable pub handler : ℕ → Option (List ℕ → G (Unit {0}))
  handler index =
      -- c k q g m p ? H s G X P
      if index == 99
      then some (cont t target_big_endian fuel)
      else if index == 107
      then some kill_request
      else if index == 113
      then some query
      else if index == 103
      then some (read_general_registers t target_big_endian)
      else if index == 109
      then some (read_memory t target_big_endian)
      else if index == 112
      then some (read_register t target_big_endian)
      else if index == 63
      then some reason
      else if index == 72
      then some set_thread
      else if index == 115
      then some (step t target_big_endian)
      else if index == 71
      then some (write_general_registers t target_big_endian)
      else if index == 88
      then some (write_memory_binary t target_big_endian)
      else if index == 80
      then some (write_register t target_big_endian)
      else none

  abbrev pub handle : Option (List ℕ → G (Unit {0})) → List ℕ → G (Unit {0})
  handle none data' = gdb_send_data []
  handle (some command) data' = command data'

  -- `text` is the `length` characters of the packet, without the NUL that follows them.
  unfoldable pub gdb_packet_analysis : List ℕ → G (Unit {0})
  gdb_packet_analysis text = do
    let packet = text ++ (0 ∷ [])
    let i = (length text - 4) + 1
    let check = checksum (take (i - 1) (drop 1 packet))
    unassigned ← gets (λ g. u32 (t.unassigned g.arm.cycle_count))
    let s = drop (i + 1) packet
    let given = scanned_or unassigned (scan_hex (length s) s)
    if check == given
        then (do
          gdb_send_ack
          let packet' = set packet i 0
          handle (handler (get_or packet' 1 0)) (drop 2 packet'))
        else gdb_require_retransmission
