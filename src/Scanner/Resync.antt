-- ===== src/Scanner/Resync.antt =====
-- How scanner.l finds a packet again after characters in which no packet is complete.
use progs.Prelude.{ℕ, ◌≡◌, refl, ap, ◌∙◌, Bool, true, List, [], ◌∷◌, ◌++◌}
use progs.Util.{Target}
use progs.Gdb.{G, Gdb, Event, Reply, replied, and_then, ◌>>◌, pure, checksum, framed}
use progs.Gdb.Scan.{hex2}
use progs.Gdb.Packet.{gdb_packet_analysis}
use progs.Gdb.Packet.Checksum.{dispatched, ended, gdb_packet_analysis-framed}
use progs.Scanner.{Token, packet, tokens, handle_error, action, actions, yylex}
use progs.Scanner.Tokens.{is_body}
use progs.Scanner.Framing.{NoPacket, tokens-++, tokens-AllNoise, tokens-framed}
use progs.Scanner.Noise.{
  Fits, Answers, more, more-more, Answers-++, handle_error-empties, actions-Quiet,
}

module _ (t : Target) (target_big_endian : Bool) (fuel : ℕ) where
  abbrev run : List Token → List ℕ → G (List ℕ)
  run = actions t target_big_endian fuel

  then_more :
      (f k j : List ℕ → G (List ℕ))
      → ((b : List ℕ) (g : Gdb) → f b g ≡ and_then (k b g) j)
      → (r : Reply (List ℕ)) → and_then r f ≡ and_then (and_then r k) j
  then_more f k j h (replied b g) = h b g
  then_more f k j h Reply.outside = refl
  then_more f k j h Reply.aborted = refl
  then_more f k j h Reply.running = refl

  actions-++ :
      (ks js : List Token) (buffer : List ℕ) (g : Gdb)
      → run (ks ++ js) buffer g ≡ and_then (run ks buffer g) (run js)
  actions-++ [] js buffer g = refl
  actions-++ (k ∷ ks) js buffer g =
      then_more (run (ks ++ js)) (run ks) (run js) (actions-++ ks js)
        (action t target_big_endian fuel k buffer g)

  -- What `yylex` does at the end.
  abbrev ending : List ℕ → G (Unit {0})
  ending buffer = handle_error buffer >> pure tt

  quiet_start :
      (ks js : List Token) (buffer : List ℕ) (g g' : Gdb) (buffer' : List ℕ)
      → run ks buffer g ≡ replied buffer' g'
      → and_then (run (ks ++ js) buffer g) ending ≡ and_then (run js buffer' g') ending
  quiet_start ks js buffer g g' buffer' same =
      ap (λ (r : Reply (List ℕ)). and_then r ending)
        (actions-++ ks js buffer g ∙ ap (λ (r : Reply (List ℕ)). and_then r (run js)) same)

  regroup :
      (r : Reply (Unit {0})) (js : List Token)
      → and_then (and_then (and_then r (λ u. pure [])) (run js)) ending
        ≡ and_then r (λ u h. and_then (run js [] h) ending)
  regroup (replied u g) js = refl
  regroup Reply.outside js = refl
  regroup Reply.aborted js = refl
  regroup Reply.running js = refl

  at_packet :
      (d : List ℕ) (js : List Token) (buffer : List ℕ) (g g' : Gdb)
      → handle_error buffer g ≡ replied [] g'
      → and_then (run (packet (framed d) ∷ js) buffer g) ending
        ≡ and_then
            (dispatched t target_big_endian fuel (b'$' ∷ ended d 0 (checksum d)) g')
            (λ u h. and_then (run js [] h) ending)
  unfolding action
  at_packet d js buffer g g' same =
      let analysis = gdb_packet_analysis t target_big_endian fuel (framed d) in
      ap
        (λ (r : Reply (List ℕ)).
          and_then (and_then (and_then r (λ b. analysis >> pure b)) (run js)) ending)
        same
      ∙ regroup (analysis g') js
      ∙ ap (λ (r : Reply (Unit {0})). and_then r (λ u h. and_then (run js [] h) ending))
          (gdb_packet_analysis-framed t target_big_endian fuel d g')

  -- A packet with the right sum at the start.
  pub yylex-framed :
      (d rest : List ℕ) (g : Gdb)
      → is_body d ≡ true
      → yylex t target_big_endian fuel (framed d ++ rest) [] g
        ≡ (dispatched t target_big_endian fuel (b'$' ∷ ended d 0 (checksum d))
              >> yylex t target_big_endian fuel rest [])
            g
  unfolding yylex handle_error
  yylex-framed d rest g body =
      ap (λ (ks : List Token). and_then (run ks [] g) ending) (tokens-framed d rest body)
      ∙ at_packet d (tokens rest) [] g g refl

  -- After any characters in which no packet is complete, be it a packet that was cut short or one
  -- whose sum was lost, a packet whose sum is right is acted on: the command runs, and the scan goes
  -- on behind it with an empty buffer. Until then the stub has only asked for retransmission or sent
  -- its last packet again.
  pub yylex_lem :
      (noise d rest buffer : List ℕ) (g : Gdb)
      → NoPacket noise
      → is_body d ≡ true
      → Fits buffer
      → (es : List Event) × Answers g.packet es
        × (yylex t target_big_endian fuel (noise ++ (framed d ++ rest)) buffer g
            ≡ (dispatched t target_big_endian fuel (b'$' ∷ ended d 0 (checksum d))
                  >> yylex t target_big_endian fuel rest [])
                (more es g))
  unfolding yylex
  yylex_lem noise d rest buffer g quiet body fits =
      let (buffer', es, fits', answers, same) =
        actions-Quiet t target_big_endian fuel (tokens noise) (tokens-AllNoise noise quiet) buffer g
          fits in
      let (es', answers', same') = handle_error-empties buffer' (more es g) fits' in
      (
        es ++ es',
        Answers-++ g.packet es es' answers answers',
        ap (λ (ks : List Token). and_then (run ks buffer g) ending)
              (tokens-++ noise ((d ++ (b'#' ∷ hex2 (checksum d))) ++ rest)
                ∙ ap (tokens noise ++◌) (tokens-framed d rest body))
            ∙ quiet_start (tokens noise) (packet (framed d) ∷ tokens rest) buffer g (more es g)
                buffer' same
            ∙ at_packet d (tokens rest) buffer' (more es g) (more es' (more es g)) same'
            ∙ ap
                (dispatched t target_big_endian fuel (b'$' ∷ ended d 0 (checksum d))
                  >> yylex t target_big_endian fuel rest [])
                (more-more es es' g),
      )
