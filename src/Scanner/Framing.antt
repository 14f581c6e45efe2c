-- ===== src/Scanner/Framing.antt =====
-- The tokens of scanner.l around a packet that gdb_protocol.c sends.
use progs.Prelude.{
  none, inl, inr, Bool-cases, ◌≤◌, ℕ, zero, suc, ◌-◌, ◌/◌, ◌%◌, ◌<◌, ◌≡◌, refl, sym, ap, ◌∙◌, true,
  Option, some, arith, ◌==◌, if◌then◌else◌, List, [], ◌∷◌, ◌++◌,
}
use progs.Prelude.Lists.{length-++, ++_assoc, drop-++, drop, length}
use progs.Gdb.{checksum, framed}
use progs.Gdb.Scan.{hex2, hex_digit}
use progs.Gdb.Packet.Checksum.{checksum-lt}
use progs.Scanner.{
  Token, ack, nak, packet, other, echoed, yytext, is_hex, two_hex, after_char, packet_rest,
  dollar_token, token_at, tokens, tokens_from,
}
use progs.Scanner.Tokens.{
  is_body, IsRest, texts, AllMatch, packet_rest-finds, token_at-At, tokens_lem,
}
use progs.Scanner.Noise.{AllNoise}

-- No packet is complete in `s`, whatever `$` it may start at.
abbrev pub NoPacket : List ℕ → Type 0
NoPacket s = (before text after : List ℕ) → s ≡ before ++ (b'$' ∷ (text ++ after)) → ¬ IsRest text

onwards :
    (s before : List ℕ) (k : Token) (ks : List Token)
    → s ≡ before ++ texts (k ∷ ks)
    → s ≡ (before ++ yytext k) ++ texts ks
onwards s before k ks same = same ∙ sym (++_assoc before (yytext k) (texts ks))

all_noise :
    (s before : List ℕ) (ks : List Token)
    → NoPacket s
    → s ≡ before ++ texts ks
    → AllMatch ks
    → AllNoise ks
all_noise s before [] no_packet same all = tt
all_noise s before (packet text ∷ ks) no_packet same ((rest, dollar, form), all) = absurd (
    no_packet before rest (texts ks) (same ∙ ap (λ (x : List ℕ). before ++ (x ++ texts ks)) dollar)
      form)
all_noise s before (ack ∷ ks) no_packet same (_, all) =
    (tt, all_noise s (before ++ yytext ack) ks no_packet (onwards s before ack ks same) all)
all_noise s before (nak ∷ ks) no_packet same (_, all) =
    (tt, all_noise s (before ++ yytext nak) ks no_packet (onwards s before nak ks same) all)
all_noise s before (other c ∷ ks) no_packet same (_, all) = (
  tt,
  all_noise s (before ++ yytext (other c)) ks no_packet (onwards s before (other c) ks same) all,
)
all_noise s before (echoed c ∷ ks) no_packet same (_, all) = (
  tt,
  all_noise s (before ++ yytext (echoed c)) ks no_packet (onwards s before (echoed c) ks same) all,
)

pub tokens-AllNoise : (s : List ℕ) → NoPacket s → AllNoise (tokens s)
tokens-AllNoise s no_packet =
    let (cover, all) = tokens_lem s in all_noise s [] (tokens s) no_packet (sym cover) all

-- A `$` that follows ends the search for a packet, and no packet is found that was not there.
two_hex-dollar : (s r : List ℕ) → two_hex (s ++ (b'$' ∷ r)) ≡ two_hex s
two_hex-dollar [] [] = refl
two_hex-dollar [] (x ∷ r) = refl
two_hex-dollar (a ∷ []) r = elim (Bool-cases (is_hex a)) [ inl h ↦ rw h refl | inr h ↦ rw h refl ]
two_hex-dollar (a ∷ b ∷ s) r = refl

packet_rest-dollar : (s r : List ℕ) → packet_rest (s ++ (b'$' ∷ r)) ≡ packet_rest s
packet_rest-dollar [] r = refl
packet_rest-dollar (c ∷ s) r =
    ap
      (λ (x : Option (List ℕ) × Option (List ℕ)).
        if c == b'$' then none else after_char c (if c == b'#' then x.0 else x.1))
      (λ i. (two_hex-dollar s r i, packet_rest-dollar s r i))

token_at-dollar : (c : ℕ) (s r : List ℕ) → token_at c (s ++ (b'$' ∷ r)) ≡ token_at c s
token_at-dollar c s r =
    ap
      (λ (o : Option (List ℕ)).
        if c == b'+'
        then ack
        else if c == b'-'
        then nak
        else if c == b'$'
        then dollar_token o
        else if c == 10
        then echoed c
        else other c)
      (packet_rest-dollar s r)

-- A token takes no more than there is.
token_at-fits : (c : ℕ) (s : List ℕ) → length (yytext (token_at c s)) - 1 ≤ length s
token_at-fits c s =
    let k = token_at c s in
    let (_, cover) = token_at-At c s in
    omega (arith, length-++ (yytext k) (drop (length (yytext k) - 1) s), ap length cover)

tokens_from-dollar :
    (skip : ℕ) (s r : List ℕ)
    → skip ≤ length s
    → tokens_from skip (s ++ (b'$' ∷ r)) ≡ tokens_from skip s ++ tokens (b'$' ∷ r)
unfolding tokens_from
tokens_from-dollar zero [] r fits = refl
tokens_from-dollar (suc skip) [] r fits = absurd (omega arith)
tokens_from-dollar (suc skip) (c ∷ s) r fits = tokens_from-dollar skip s r (omega arith)
tokens_from-dollar zero (c ∷ s) r fits =
    let k = token_at c s in
    ap (λ (x : Token). x ∷ tokens_from (length (yytext x) - 1) (s ++ (b'$' ∷ r)))
      (token_at-dollar c s r)
    ∙ ap (k ∷◌) (tokens_from-dollar (length (yytext k) - 1) s r (token_at-fits c s))

-- Whatever comes before a `$`, what starts with it is cut as it would be alone.
pub tokens-++ :
    (noise r : List ℕ) → tokens (noise ++ (b'$' ∷ r)) ≡ tokens noise ++ tokens (b'$' ∷ r)
tokens-++ noise r = tokens_from-dollar 0 noise r (omega arith)

hex_digit-is_hex : (d : ℕ) → d < 16 → is_hex (hex_digit d) ≡ true
hex_digit-is_hex d h = ground arith

packet_rest-framed :
    (d : List ℕ) (k : ℕ) (s : List ℕ)
    → is_body d ≡ true
    → k < 256
    → packet_rest (d ++ (b'#' ∷ (hex2 k ++ s))) ≡ some (d ++ (b'#' ∷ hex2 k))
packet_rest-framed d k s h small =
    packet_rest-finds d (hex_digit (k / 16)) (hex_digit (k % 16)) s h
      (hex_digit-is_hex (k / 16) (omega arith)) (hex_digit-is_hex (k % 16) (omega arith))

tokens_from-drop : (skip : ℕ) (s : List ℕ) → tokens_from skip s ≡ tokens (drop skip s)
unfolding tokens_from
tokens_from-drop zero s = refl
tokens_from-drop (suc skip) [] = refl
tokens_from-drop (suc skip) (c ∷ s) = tokens_from-drop skip s

tokens-dollar :
    (text s : List ℕ)
    → packet_rest (text ++ s) ≡ some text
    → tokens (b'$' ∷ (text ++ s)) ≡ packet (b'$' ∷ text) ∷ tokens s
unfolding tokens_from
tokens-dollar text s found =
    let taken : suc (length text) - 1 ≡ length text = omega arith in
    ap
      (λ (o : Option (List ℕ)).
        dollar_token o ∷ tokens_from (length (yytext (dollar_token o)) - 1) (text ++ s))
      found
    ∙ ap (packet (b'$' ∷ text) ∷◌) (
        ap (λ (n : ℕ). tokens_from n (text ++ s)) taken
        ∙ tokens_from-drop (length text) (text ++ s)
        ∙ ap tokens (drop-++ text s))

pub tokens-framed :
    (d s : List ℕ) → is_body d ≡ true → tokens (framed d ++ s) ≡ packet (framed d) ∷ tokens s
tokens-framed d s h =
    let k = checksum d in
    let apart = ++_assoc d (b'#' ∷ hex2 k) s in
    tokens-dollar (d ++ (b'#' ∷ hex2 k)) s
      (ap packet_rest apart ∙ packet_rest-framed d k s h (checksum-lt d))
