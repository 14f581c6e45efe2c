-- ===== src/Scanner.antt =====
-- scanner.l: the lexer of the debugger's connection. The rules cut what comes in into tokens, and
-- their actions run on the stub of Gdb with the characters of `buffer` up to `len`.
pub mod Tokens
pub mod Noise
pub mod Framing
pub mod Resync
pub mod Session
pub mod Upload
pub mod Stepping
pub mod Running
use progs.Prelude.{
  ℕ, zero, suc, ◌-◌, Bool, true, false, ◌&&◌, Option, none, some, ltb, ◌==◌, if◌then◌else◌, List,
  [], ◌∷◌, ◌++◌,
}
use progs.Prelude.Lists.{length}
use progs.Util.{Target}
use progs.Core.{ArmCore}
use progs.Gdb.{
  G, Reply, replied, outside, pure, ◌>>=◌, ◌>>◌, gdb_transmit_packet, gdb_require_retransmission,
}
use progs.Gdb.Scan.{hex_value}
use progs.Gdb.Packet.{gdb_init_data, gdb_packet_analysis}

-- What the rules match. `echoed` is a newline outside a packet, which no rule matches and which
-- flex copies to the standard output.
pub data Token : Type 0 where
  ack : Token
  nak : Token
  packet : List ℕ → Token
  other : ℕ → Token
  echoed : ℕ → Token

abbrev pub yytext : Token → List ℕ
yytext ack = b'+' ∷ []
yytext nak = b'-' ∷ []
yytext (packet text) = text
yytext (other c) = c ∷ []
yytext (echoed c) = c ∷ []

-- {HEX}
abbrev pub is_hex : ℕ → Bool
is_hex c = ltb (hex_value c) 16

-- {HEX}{HEX} at the start of what comes.
abbrev pub two_hex : List ℕ → Option (List ℕ)
two_hex [] = none
two_hex (a ∷ []) = none
two_hex (a ∷ b ∷ s) = if is_hex a && is_hex b then some (a ∷ b ∷ []) else none

abbrev pub after_char : ℕ → Option (List ℕ) → Option (List ℕ)
after_char c none = none
after_char c (some s) = some (c ∷ s)

-- [^$#]*"#"{HEX}{HEX}: at most one length matches, as the `#` is the first one.
abbrev pub packet_rest : List ℕ → Option (List ℕ)
packet_rest [] = none
packet_rest (c ∷ s) =
    let more = packet_rest s in
    if c == b'$' then none else after_char c (if c == b'#' then two_hex s else more)

abbrev pub dollar_token : Option (List ℕ) → Token
dollar_token none = other b'$'
dollar_token (some s) = packet (b'$' ∷ s)

-- The longest match at `c`, and the first rule that has it.
abbrev pub token_at : ℕ → List ℕ → Token
token_at c s =
    if c == b'+'
    then ack
    else if c == b'-'
    then nak
    else if c == b'$'
    then dollar_token (packet_rest s)
    else if c == 10
    then echoed c
    else other c

-- The tokens of what is left after `skip` characters that the last token has taken.
unfoldable pub tokens_from : (skip : ℕ) → List ℕ → List Token
tokens_from skip [] = []
tokens_from zero (c ∷ s) = token_at c s ∷ tokens_from (length (yytext (token_at c s)) - 1) s
tokens_from (suc skip) (c ∷ s) = tokens_from skip s

abbrev pub tokens : List ℕ → List Token
tokens = tokens_from 0

-- A write outside the buffer.
abbrev pub overflow : {A : Type 0} → G A
overflow g = outside

-- The buffer has MAX_ERROR_SIZE bytes, and the debug message puts a NUL at `len`.
unfoldable pub handle_error : (buffer : List ℕ) → G (List ℕ)
handle_error buffer =
    if length buffer == 0
    then pure buffer
    else if ltb 1023 (length buffer)
    then overflow
    else gdb_require_retransmission >> pure []

abbrev put_char : ℕ → (buffer : List ℕ) → G (List ℕ)
put_char c buffer = if ltb 1023 (length buffer) then overflow else pure (buffer ++ (c ∷ []))

unfoldable pub add_character_to_error : (buffer : List ℕ) → ℕ → G (List ℕ)
add_character_to_error buffer c =
    (if ltb 1022 (length buffer) then handle_error buffer else pure buffer) >>= put_char c

module _ (t : Target) (target_big_endian : Bool) (fuel : ℕ) where
  -- The action of the rule, and what is in the buffer after it.
  unfoldable pub action : Token → (buffer : List ℕ) → G (List ℕ)
  action ack buffer = handle_error buffer
  action nak buffer = do buffer' ← handle_error buffer; gdb_transmit_packet; pure buffer'
  action (packet text) buffer = do
    buffer' ← handle_error buffer
    gdb_packet_analysis t target_big_endian fuel text
    pure buffer'
  action (other c) buffer = add_character_to_error buffer c
  action (echoed c) buffer = pure buffer

  -- The actions in turn.
  abbrev pub actions : List Token → (buffer : List ℕ) → G (List ℕ)
  actions [] buffer = pure buffer
  actions (k ∷ ks) buffer = action k buffer >>= actions ks

  -- `yylex` on all that comes before the end of the file.
  unfoldable pub yylex : List ℕ → (buffer : List ℕ) → G (Unit {0})
  yylex input buffer = do
    buffer' ← actions (tokens input) buffer
    buffer'' ← handle_error buffer'
    pure tt

  -- `opened` is whether `fdopen` gives a stream; `input` is what comes on it until it ends.
  unfoldable pub gdb_scanner : (opened : Bool) → (input : List ℕ) → ArmCore → Reply (Unit {0})
  gdb_scanner opened input arm =
      if opened then yylex input [] (gdb_init_data arm) else replied tt (gdb_init_data arm)
