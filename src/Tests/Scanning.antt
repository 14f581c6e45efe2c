-- ===== src/Tests/Scanning.antt =====
-- Tests of scanner.l.
use progs.Prelude.{ℕ, ◌≡◌, refl, true, arith, List, [], ◌∷◌, ◌++◌}
use progs.Gdb.{Gdb, replied, framed, sent}
use progs.Gdb.{Event, ◌>>◌, checksum, gdb_send_stop_reason, gdb_send_data, gdb_send_buffer}
use progs.Gdb.Packet.{gdb_init_data, gdb_packet_analysis, handler}
use progs.Gdb.Packet.Checksum.{dispatched, ended}
use progs.Scanner.{ack, nak, packet, other, tokens, yylex, gdb_scanner}
use progs.Scanner.{tokens_from, action, actions, handle_error, add_character_to_error}
use progs.Prelude.{ap}
use progs.Prelude.Lists.{length, length-++}
use progs.Scanner.Framing.{NoPacket}
use progs.Scanner.Tokens.{AllMatch, texts, tokens_lem}
use progs.Scanner.Noise.{Answers, Quiet, more, actions-Quiet}
use progs.Scanner.Resync.{yylex_lem}
use progs.Tests.{host, block, core}

abbrev stub : Gdb
stub = gdb_init_data (core (block true 0x12 0x34 0x56 0x78))

-- +x$$?#3f-
abbrev heard : List ℕ
heard = 43 ∷ 120 ∷ 36 ∷ 36 ∷ 63 ∷ 35 ∷ 51 ∷ 102 ∷ 45 ∷ []

tokens_run :
    tokens heard ≡ ack ∷ other 120 ∷ other 36 ∷ packet (36 ∷ 63 ∷ 35 ∷ 51 ∷ 102 ∷ []) ∷ nak ∷ []
unfolding tokens_from
tokens_run = refl

tokens_lem_example : (texts (tokens heard) ≡ heard) × AllMatch (tokens heard)
tokens_lem_example = tokens_lem heard

actions-Quiet_example :
    Quiet stub (actions host true 0 (ack ∷ other 120 ∷ nak ∷ other 36 ∷ []) (33 ∷ []) stub)
actions-Quiet_example =
    actions-Quiet host true 0 (ack ∷ other 120 ∷ nak ∷ other 36 ∷ []) (tt, (tt, (tt, (tt, tt))))
      (33 ∷ []) stub (omega arith)

-- The packet ? is cut short, comes again, and + after it.
abbrev cut_short : List ℕ
cut_short = b'$' ∷ b'?' ∷ []

cut_short-NoPacket : NoPacket cut_short
cut_short-NoPacket before text after same (body, a, b, form, _, _, _) = omega (
  arith,
  ap length same,
  length-++ before (b'$' ∷ (text ++ after)),
  length-++ text after,
  ap length form,
  length-++ body (b'#' ∷ a ∷ b ∷ []),
)

yylex_lem_example :
    (es : List Event) × Answers [] es
    × (yylex host true 0 (cut_short ++ (framed (63 ∷ []) ++ (43 ∷ []))) [] stub
        ≡ (dispatched host true 0 (36 ∷ ended (63 ∷ []) 0 (checksum (63 ∷ [])))
              >> yylex host true 0 (43 ∷ []) [])
            (more es stub))
yylex_lem_example =
    yylex_lem host true 0 cut_short (63 ∷ []) (43 ∷ []) [] stub cut_short-NoPacket refl
      (omega arith)

-- x, and then the packet ? with the right sum: retransmission, acknowledgement and answer.
scan_runs :
    gdb_scanner host true 0 true (120 ∷ framed (63 ∷ [])) stub.arm
    ≡ replied tt (record stub {
      packet = framed (83 ∷ 48 ∷ 53 ∷ []);
      events = sent (45 ∷ []) ∷ sent (43 ∷ []) ∷ sent (framed (83 ∷ 48 ∷ 53 ∷ [])) ∷ [];
    })
unfolding gdb_scanner yylex tokens_from action handle_error add_character_to_error
    gdb_packet_analysis handler gdb_send_stop_reason gdb_send_data gdb_send_buffer
scan_runs = refl
