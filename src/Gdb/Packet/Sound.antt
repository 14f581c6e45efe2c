-- ===== src/Gdb/Packet/Sound.antt =====
-- The analysis of a packet of gdb_protocol.c keeps what Gdb/Frame says, whatever the packet.
use progs.Prelude.{
  ℕ, refl, inl, inr, Bool, true, false, Option, none, some, if◌then◌else◌, List, [],
}
use progs.Util.{Target}
use progs.Gdb.{G, shut, gdb_send_ack, gdb_require_retransmission}
use progs.Gdb.Handlers.{kill_request, reason}
use progs.Gdb.Packet.{handler, handle, gdb_packet_analysis}
use progs.Gdb.Frame.{
  Keeps, sound_rules, emit-Keeps, gdb_send_data-Keeps, gdb_send_stop_reason-Keeps,
}
use progs.Gdb.Keeps.{
  query-Keeps, set_thread-Keeps, cont-Keeps, step-Keeps, read_general_registers-Keeps,
  read_memory-Keeps, read_register-Keeps, write_general_registers-Keeps, write_register-Keeps,
  write_memory_binary-Keeps,
}

gdb_send_ack-Keeps : Keeps gdb_send_ack
gdb_send_ack-Keeps = emit-Keeps _ (inl refl)

pub gdb_require_retransmission-Keeps : Keeps gdb_require_retransmission
gdb_require_retransmission-Keeps = emit-Keeps _ (inr (inl refl))

kill_request-Keeps : (data' : List ℕ) → Keeps (kill_request data')
kill_request-Keeps data' = emit-Keeps shut tt

reason-Keeps : (data' : List ℕ) → Keeps (reason data')
reason-Keeps data' = gdb_send_stop_reason-Keeps

module _ (t : Target) (target_big_endian : Bool) (fuel : ℕ) where
  -- The entry of the table, or the empty answer, keeps it on all data.
  record EntryKeeps (o : Option (List ℕ → G (Unit {0}))) : Type 0 where
    on : (data' : List ℕ) → Keeps (handle t target_big_endian fuel o data')

  none-EntryKeeps : EntryKeeps none
  none-EntryKeeps = record { on = λ data'. gdb_send_data-Keeps [] }

  some-EntryKeeps :
      (c : List ℕ → G (Unit {0})) → ((data' : List ℕ) → Keeps (c data')) → EntryKeeps (some c)
  some-EntryKeeps c h = record { on = h }

  if-EntryKeeps :
      (b : Bool) (x y : Option (List ℕ → G (Unit {0})))
      → EntryKeeps x
      → EntryKeeps y
      → EntryKeeps (if b then x else y)
  if-EntryKeeps true x y h k = h
  if-EntryKeeps false x y h k = k

  handler-EntryKeeps : (index : ℕ) → EntryKeeps (handler t target_big_endian fuel index)
  unfolding handler
  handler-EntryKeeps index =
      search
        (
          none-EntryKeeps, some-EntryKeeps, if-EntryKeeps, query-Keeps, set_thread-Keeps,
          cont-Keeps, step-Keeps, read_general_registers-Keeps, read_memory-Keeps,
          read_register-Keeps, write_general_registers-Keeps, write_register-Keeps,
          write_memory_binary-Keeps, kill_request-Keeps, reason-Keeps,
        )
        depth 20

  pub gdb_packet_analysis-Keeps :
      (text : List ℕ) → Keeps (gdb_packet_analysis t target_big_endian fuel text)
  unfolding gdb_packet_analysis
  gdb_packet_analysis-Keeps text =
      search (sound_rules, gdb_send_ack-Keeps, gdb_require_retransmission-Keeps, handled) depth 20
    where
      handled :
          (index : ℕ) (data' : List ℕ)
          → Keeps (handle t target_big_endian fuel (handler t target_big_endian fuel index) data')
      handled index data' = (handler-EntryKeeps index).on data'
