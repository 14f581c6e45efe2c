-- ===== src/Scanner/Noise.antt =====
-- What the actions of scanner.l do when no packet is matched: the buffer of errors stays within its
-- array, and the stub only answers.
use progs.Prelude.{
  ℕ, ◌<◌, ◌≡◌, refl, sym, ap, ◌∙◌, ◌⊎◌, inl, inr, Bool-cases, Bool, false, ltb, arith,
  if◌then◌else◌, List, [], ◌∷◌, ◌++◌,
}
use progs.Prelude.Lists.{++_assoc, length-++, length}
use progs.Util.{Target}
use progs.Gdb.{
  G, Gdb, Reply, replied, Event, sent, pure, and_then, ◌>>=◌, ◌>>◌, gdb_transmit_packet,
}
use progs.Scanner.{
  Token, ack, nak, packet, other, echoed, handle_error, add_character_to_error, put_char, action,
  actions,
}

-- `len` can still be the index of a NUL.
abbrev pub Fits : (buffer : List ℕ) → Type 0
Fits buffer = length buffer < 1024

abbrev pub more : List Event → Gdb → Gdb
more es g = record g { events = g.events ++ es }

-- Requests for retransmission, and the last packet again.
abbrev pub Answers : (packet : List ℕ) → List Event → Type 0
Answers last [] = Unit {0}
Answers last (e ∷ es) = ((e ≡ sent (b'-' ∷ [])) ⊎ (e ≡ sent last)) × Answers last es

-- The run ends, and has done nothing but to answer.
abbrev pub Quiet : Gdb → Reply (List ℕ) → Type 0
Quiet g r =
    (buffer : List ℕ) × (es : List Event) × Fits buffer
    × Answers g.packet es
    × (r ≡ replied buffer (more es g))

++_[] : (es : List Event) → es ++ [] ≡ es
++_[] [] = refl
++_[] (e ∷ es) = ap (e ∷◌) (++_[] es)

pub Answers-++ :
    (last : List ℕ) (es es' : List Event)
    → Answers last es
    → Answers last es'
    → Answers last (es ++ es')
Answers-++ last [] es' h k = k
Answers-++ last (e ∷ es) es' (a, h) k = (a, Answers-++ last es es' h k)

pub more-more : (es es' : List Event) (g : Gdb) → more es' (more es g) ≡ more (es ++ es') g
more-more es es' g = ap (λ (q : List Event). record g { events = q }) (++_assoc g.events es es')

more_[] : (g : Gdb) → g ≡ more [] g
more_[] g = ap (λ (q : List Event). record g { events = q }) (sym (++_[] g.events))

pub Quiet-pure : (buffer : List ℕ) (g : Gdb) → Fits buffer → Quiet g (pure buffer g)
Quiet-pure buffer g h = (buffer, [], h, tt, ap (replied buffer) (more_[] g))

pub Quiet-then :
    (m : G (List ℕ)) (k : List ℕ → G (List ℕ)) (g : Gdb)
    → Quiet g (m g)
    → ((buffer : List ℕ) (es : List Event) → Fits buffer → Quiet (more es g) (k buffer (more es g)))
    → Quiet g ((m >>= k) g)
Quiet-then m k g (buffer, es, fits, answers, same) rest =
    let (buffer', es', fits', answers', same') = rest buffer es fits in
    (
      buffer',
      es ++ es',
      fits',
      Answers-++ g.packet es es' answers answers',
      ap (λ (r : Reply (List ℕ)). and_then r k) same
          ∙ same'
          ∙ ap (replied buffer') (more-more es es' g),
    )

-- `handle_error` empties a buffer that fits: it asks once for what was lost.
pub handle_error_lem :
    (c : ℕ) (buffer : List ℕ) (g : Gdb)
    → Fits (c ∷ buffer)
    → handle_error (c ∷ buffer) g ≡ replied [] (more (sent (b'-' ∷ []) ∷ []) g)
unfolding handle_error
handle_error_lem c buffer g h = ground arith

handle_error-[] : (g : Gdb) → handle_error [] g ≡ replied [] g
unfolding handle_error
handle_error-[] g = refl

pub handle_error-empties :
    (buffer : List ℕ) (g : Gdb)
    → Fits buffer
    → (es : List Event) × Answers g.packet es × (handle_error buffer g ≡ replied [] (more es g))
handle_error-empties [] g h = ([], tt, handle_error-[] g ∙ ap (replied []) (more_[] g))
handle_error-empties (c ∷ buffer) g h =
    (sent (b'-' ∷ []) ∷ [], (inl refl, tt), handle_error_lem c buffer g h)

pub handle_error-Quiet : (buffer : List ℕ) (g : Gdb) → Fits buffer → Quiet g (handle_error buffer g)
handle_error-Quiet buffer g h =
    let (es, answers, same) = handle_error-empties buffer g h in
    ([], es, omega arith, answers, same)

put_char_lem :
    (c : ℕ) (buffer : List ℕ) (g : Gdb)
    → Fits buffer
    → put_char c buffer g ≡ replied (buffer ++ (c ∷ [])) g
put_char_lem c buffer g h = ground arith

-- A character is put after the others if there is a place for it and for the NUL; if there is none,
-- retransmission is asked for, and it is the first of an empty buffer.
pub add_character_to_error_lem :
    (buffer : List ℕ) (c : ℕ) (g : Gdb)
    → Fits buffer
    → add_character_to_error buffer c g ≡ (
        if ltb 1022 (length buffer)
        then replied (c ∷ []) (more (sent (b'-' ∷ []) ∷ []) g)
        else replied (buffer ++ (c ∷ [])) g)
unfolding add_character_to_error
add_character_to_error_lem [] c g h = refl
add_character_to_error_lem (b ∷ buffer) c g h = elim (Bool-cases (ltb 1022 (length (b ∷ buffer)))) [
  | inl full ↦
      rw full (ap (λ (r : Reply (List ℕ)). and_then r (put_char c)) (handle_error_lem b buffer g h))
  | inr room ↦ rw room (put_char_lem c (b ∷ buffer) g h)
]

longer :
    (buffer : List ℕ) (c : ℕ)
    → Fits buffer
    → ltb 1022 (length buffer) ≡ false
    → Fits (buffer ++ (c ∷ []))
longer buffer c h room = let sum = length-++ buffer (c ∷ []) in ground (arith, sum)

add_character_to_error-Quiet :
    (buffer : List ℕ) (c : ℕ) (g : Gdb) → Fits buffer → Quiet g (add_character_to_error buffer c g)
add_character_to_error-Quiet buffer c g h = elim (Bool-cases (ltb 1022 (length buffer))) [
  | inl full ↦
      rw (add_character_to_error_lem buffer c g h, full)
        (c ∷ [], sent (b'-' ∷ []) ∷ [], omega arith, (inl refl, tt), refl)
  | inr room ↦
      rw (add_character_to_error_lem buffer c g h, room)
        (Quiet-pure (buffer ++ (c ∷ [])) g (longer buffer c h room))
]

abbrev pub IsNoise : Token → Type 0
IsNoise (packet text) = ⊥
IsNoise ack = Unit {0}
IsNoise nak = Unit {0}
IsNoise (other c) = Unit {0}
IsNoise (echoed c) = Unit {0}

abbrev pub AllNoise : List Token → Type 0
AllNoise [] = Unit {0}
AllNoise (k ∷ ks) = IsNoise k × AllNoise ks

module _ (t : Target) (target_big_endian : Bool) (fuel : ℕ) where
  pub action-Quiet :
      (k : Token)
      → IsNoise k
      → (buffer : List ℕ) (g : Gdb) → Fits buffer
      → Quiet g (action t target_big_endian fuel k buffer g)
  unfolding action
  action-Quiet ack n buffer g h = handle_error-Quiet buffer g h
  action-Quiet (packet text) n buffer g h = absurd n
  action-Quiet nak n buffer g h =
      Quiet-then (handle_error buffer) (λ b. gdb_transmit_packet >> pure b) g
        (handle_error-Quiet buffer g h)
        (λ b es fits. (b, sent g.packet ∷ [], fits, (inr refl, tt), refl))
  action-Quiet (other c) n buffer g h = add_character_to_error-Quiet buffer c g h
  action-Quiet (echoed c) n buffer g h = Quiet-pure buffer g h

  -- Whatever comes without a packet, the buffer stays within its array, the stub only asks for
  -- retransmission or sends its last packet again, and the core is untouched.
  pub actions-Quiet :
      (ks : List Token)
      → AllNoise ks
      → (buffer : List ℕ) (g : Gdb) → Fits buffer
      → Quiet g (actions t target_big_endian fuel ks buffer g)
  actions-Quiet [] n buffer g h = Quiet-pure buffer g h
  actions-Quiet (k ∷ ks) (n, ns) buffer g h =
      Quiet-then (action t target_big_endian fuel k buffer) (actions t target_big_endian fuel ks) g
        (action-Quiet k n buffer g h) (λ b es fits. actions-Quiet ks ns b (more es g) fits)
