-- ===== src/Scanner/Tokens.antt =====
-- The tokens of scanner.l: they cover the input, and each is what its rule says.
use progs.Prelude.{
  false, ℕ, zero, suc, inl, inr, Bool-cases, ◌-◌, ◌≡◌, refl, sym, ap, ◌∙◌, Bool, true, ◌&&◌, Option,
  none, some, arith, ◌==◌, ◌!=◌, List, [], ◌∷◌, ◌++◌,
}
use mathlib.Core.Path.{subst}
use progs.Prelude.Lists.{++_assoc, drop, length}
use progs.Scanner.{
  Token, ack, nak, packet, other, echoed, yytext, is_hex, two_hex, after_char, packet_rest,
  dollar_token, token_at, tokens, tokens_from,
}

-- The text is at the start of `s`.
abbrev Starts : List ℕ → List ℕ → Type 0
Starts text s = text ++ drop (length text) s ≡ s

-- `[^$#]*`
abbrev pub is_body : List ℕ → Bool
is_body [] = true
is_body (c ∷ s) = c != b'$' && (c != b'#' && is_body s)

-- `[^$#]*"#"{HEX}{HEX}`
abbrev pub IsRest : List ℕ → Type 0
IsRest text =
    (body : List ℕ) × (a : ℕ) × (b : ℕ) × (text ≡ body ++ (b'#' ∷ a ∷ b ∷ []))
    × (is_body body ≡ true)
    × (is_hex a ≡ true)
    × (is_hex b ≡ true)

-- No `[^$#]*"#"{HEX}{HEX}` is at the start of `s`.
abbrev pub NoRest : List ℕ → Type 0
NoRest s = (text after : List ℕ) → s ≡ text ++ after → ¬ IsRest text

-- What the pattern of a token's rule matches, less what the other rules match there, before `rest`.
abbrev pub Matches : Token → (rest : List ℕ) → Type 0
Matches ack rest = Unit {0}
Matches nak rest = Unit {0}
Matches (packet text) rest = (s : List ℕ) × (text ≡ b'$' ∷ s) × IsRest s
Matches (other c) rest =
    (c != b'+' ≡ true) × (c != b'-' ≡ true) × (c != 10 ≡ true) × (c ≡ b'$' → NoRest rest)
Matches (echoed c) rest = c ≡ 10

-- The texts of the tokens, one after the other.
abbrev pub texts : List Token → List ℕ
texts [] = []
texts (k ∷ ks) = yytext k ++ texts ks

abbrev pub AllMatch : List Token → Type 0
AllMatch [] = Unit {0}
AllMatch (k ∷ ks) = Matches k (texts ks) × AllMatch ks

and_split : (a b : Bool) → a && b ≡ true → (a ≡ true) × (b ≡ true)
and_split a b h = ground arith

-- A rest that is there is found.
pub packet_rest-finds :
    (body : List ℕ) (a b : ℕ) (s : List ℕ)
    → is_body body ≡ true
    → is_hex a ≡ true
    → is_hex b ≡ true
    → packet_rest (body ++ (b'#' ∷ a ∷ b ∷ s)) ≡ some (body ++ (b'#' ∷ a ∷ b ∷ []))
packet_rest-finds [] a b s h ha hb = rw (ha, hb) refl
packet_rest-finds (c ∷ body) a b s h ha hb =
    let (not_dollar, rest) = and_split (c != b'$') (c != b'#' && is_body body) h in
    let (not_hash, plain) = and_split (c != b'#') (is_body body) rest in
    let more = packet_rest-finds body a b s plain ha hb in
    let no_dollar : c == b'$' ≡ false = ground arith in
    let no_hash : c == b'#' ≡ false = ground arith in
    rw (no_dollar, no_hash) (ap (after_char c) more)

not_both : (o : Option (List ℕ)) (x : List ℕ) → o ≡ none → ¬ (o ≡ some x)
not_both o x e f = ground arith

packet_rest-NoRest : (s : List ℕ) → packet_rest s ≡ none → NoRest s
packet_rest-NoRest s nothing text after same (body, a, b, form, plain, ha, hb) =
    let apart = ap (◌++ after) form ∙ ++_assoc body (b'#' ∷ a ∷ b ∷ []) after in
    not_both (packet_rest s) (body ++ (b'#' ∷ a ∷ b ∷ [])) nothing
      (ap packet_rest (same ∙ apart) ∙ packet_rest-finds body a b after plain ha hb)

-- A found rest is at the start of the input and has the form.
abbrev Found : List ℕ → Option (List ℕ) → Type 0
Found s none = Unit {0}
Found s (some text) = Starts text s × IsRest text

Found-hash : (s : List ℕ) → Found (b'#' ∷ s) (after_char b'#' (two_hex s))
Found-hash [] = tt
Found-hash (a ∷ []) = tt
Found-hash (a ∷ b ∷ s) = elim (Bool-cases (is_hex a)) [
  | inr h ↦ rw h tt
  | inl h ↦ elim (Bool-cases (is_hex b)) [
    | inr k ↦ rw (h, k) tt
    | inl k ↦ rw (h, k) (refl, ([], a, b, refl, refl, h, k))
  ]
]

Found-char :
    (c : ℕ) (s : List ℕ)
    → c != b'$' ≡ true
    → c != b'#' ≡ true
    → (found : Option (List ℕ)) → Found s found
    → Found (c ∷ s) (after_char c found)
Found-char c s h k none f = tt
Found-char c s h k (some text) (starts, (body, a, b, same, plain, ha, hb)) =
    (ap (c ∷◌) starts, (c ∷ body, a, b, ap (c ∷◌) same, rw (h, k) plain, ha, hb))

packet_rest-Found : (s : List ℕ) → Found s (packet_rest s)
packet_rest-Found [] = tt
packet_rest-Found (c ∷ s) =
    let more = packet_rest-Found s in
    elim (Bool-cases (c == b'$')) [
      | inl h ↦ rw h tt
      | inr h ↦ elim (Bool-cases (c == b'#')) [
        | inl k ↦ let same : c ≡ b'#' = ground arith in rw (h, k) (rw same (Found-hash s))
        | inr k ↦ rw (h, k) (Found-char c s (ground arith) (ground arith) (packet_rest s) more)
      ]
    ]

-- What the token leaves of the characters behind `c`.
abbrev left : List ℕ → Token → List ℕ
left s k = drop (length (yytext k) - 1) s

-- The token is one of its rule, and its text is at the start of the input.
abbrev pub At : (c : ℕ) → List ℕ → Token → Type 0
At c s k = Matches k (left s k) × (yytext k ++ left s k ≡ c ∷ s)

dollar_token-At :
    (s : List ℕ) (found : Option (List ℕ))
    → packet_rest s ≡ found
    → Found s found
    → At b'$' s (dollar_token found)
dollar_token-At s none same f = ((refl, refl, refl, λ e. packet_rest-NoRest s same), refl)
dollar_token-At s (some text) same (starts, rest) =
    let less : suc (length text) - 1 ≡ length text = omega arith in
    let dropped : b'$' ∷ (text ++ drop (suc (length text) - 1) s) ≡ b'$' ∷ s =
      rw less (ap (b'$' ∷◌) starts) in
    ((text, refl, rest), dropped)

pub token_at-At : (c : ℕ) (s : List ℕ) → At c s (token_at c s)
token_at-At c s = elim (Bool-cases (c == b'+')) [
  | inl h ↦ let same : c ≡ b'+' = ground arith in rw h (tt, ap (◌∷ s) (sym same))
  | inr h ↦ elim (Bool-cases (c == b'-')) [
    | inl k ↦ let same : c ≡ b'-' = ground arith in rw (h, k) (tt, ap (◌∷ s) (sym same))
    | inr k ↦ elim (Bool-cases (c == b'$')) [
      | inl d ↦
          let same : c ≡ b'$' = ground arith in
          rw (h, k, d) (rw same (dollar_token-At s (packet_rest s) refl (packet_rest-Found s)))
      | inr d ↦ elim (Bool-cases (c == 10)) [
        | inl n ↦ rw (h, k, d, n) (ground arith, refl)
        | inr n ↦
            rw (h, k, d, n)
              ((ground arith, ground arith, ground arith, λ e. absurd (other_than c d e)), refl)
      ]
    ]
  ]
]
  where
    other_than : (c : ℕ) → c == b'$' ≡ false → ¬ (c ≡ b'$')
    other_than c d e = ground arith

tokens_from_lem :
    (skip : ℕ) (s : List ℕ)
    → (texts (tokens_from skip s) ≡ drop skip s) × AllMatch (tokens_from skip s)
unfolding tokens_from
tokens_from_lem zero [] = (refl, tt)
tokens_from_lem (suc skip) [] = (refl, tt)
tokens_from_lem (suc skip) (c ∷ s) = tokens_from_lem skip s
tokens_from_lem zero (c ∷ s) =
    let k = token_at c s in
    let (cover, all) = tokens_from_lem (length (yytext k) - 1) s in
    let (matches, starts) = token_at-At c s in
    (
      ap (yytext k ++◌) cover ∙ starts,
      (subst (λ (rest : List ℕ). Matches k rest) (sym cover) matches, all),
    )

-- The texts of the tokens are the input, with nothing lost or added, and each token is one that
-- its rule matches: a packet is `$`, characters other than `$` and `#`, `#` and two digits, and a `$`
-- is taken alone only where no packet starts with it.
pub tokens_lem : (s : List ℕ) → (texts (tokens s) ≡ s) × AllMatch (tokens s)
tokens_lem s = tokens_from_lem 0 s
