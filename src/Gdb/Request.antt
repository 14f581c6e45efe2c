-- ===== src/Gdb/Request.antt =====
-- The requests m and X as gdb puts them, and how gdb_protocol.c reads them.
use progs.Prelude.{
  ℕ, ◌<◌, ◌≡◌, refl, ap, ◌∙◌, some, Bool, true, false, ◌&&◌, arith, ◌==◌, ◌!=◌, List, [], ◌∷◌, ◌++◌,
}
use progs.Prelude.Word.{word_size}
use progs.Prelude.Lists.{length, length-++, ++_assoc}
use progs.Gdb.{scanned_or}
use progs.Gdb.Text.{after}
use progs.Gdb.Scan.{hex_digit, scan_hex}
use progs.Gdb.Handlers.{address_and_size, first_and_second}
use progs.Gdb.Digits.{AllDigits, digits_text, of_digits, Ends, scan_hex-digits_text}
use progs.Gdb.Writing.{escaped, escapes}
use progs.Scanner.Tokens.{is_body}

-- A number of a request: its first digit, and the others.
pub record Number : Type 0 where
  pub first : ℕ
  pub others : List ℕ

abbrev pub digits : Number → List ℕ
digits n = n.first ∷ n.others

abbrev pub value : Number → ℕ
value n = of_digits 0 (digits n)

abbrev pub IsNumber : Number → Type 0
IsNumber n = AllDigits (digits n) × (value n < word_size)

-- An address, a comma, a size, and what ends the size.
abbrev pub address_size : (address size : Number) → (rest : List ℕ) → List ℕ
address_size address size rest =
    digits_text (digits address) ++ (b',' ∷ (digits_text (digits size) ++ rest))

pub address_size-++ :
    (address size : Number) (rest z : List ℕ)
    → address_size address size rest ++ z ≡ address_size address size (rest ++ z)
address_size-++ address size rest z =
    ++_assoc (digits_text (digits address)) (b',' ∷ (digits_text (digits size) ++ rest)) z
    ∙ ap (λ (q : List ℕ). digits_text (digits address) ++ (b',' ∷ q))
        (++_assoc (digits_text (digits size)) rest z)

length-digits_text : (ds : List ℕ) → length (digits_text ds) ≡ length ds
length-digits_text [] = refl
length-digits_text (d ∷ ds) = omega (arith, length-digits_text ds)

scan_number :
    (n : Number) (y : ℕ) (s : List ℕ)
    → IsNumber n
    → Ends y
    → let text = digits_text (digits n) ++ (y ∷ s) in
      scan_hex (length text) text ≡ some (value n, y ∷ s)
scan_number n y s (all, small) end =
    scan_hex-digits_text n.first n.others y s (length (digits_text (digits n) ++ (y ∷ s))) all end
      (omega (arith, length-++ (digits_text (digits n)) (y ∷ s), length-digits_text (digits n)))
      small

pub address_and_size-address_size :
    (unassigned : ℕ) (address size : Number) (y : ℕ) (s : List ℕ)
    → IsNumber address
    → IsNumber size
    → Ends y
    → address_and_size unassigned (address_size address size (y ∷ s)) ≡ (value address, value size)
address_and_size-address_size unassigned address size y s is_address is_size end =
    let rest = digits_text (digits size) ++ (y ∷ s) in
    ap (first_and_second unassigned unassigned)
      (scan_number address b',' rest is_address (refl, refl, omega arith))
    ∙ ap (λ (n : ℕ). (value address, n))
        (ap (scanned_or unassigned) (scan_number size y s is_size end))

after-digits_text : (ds s : List ℕ) → AllDigits ds → after b':' (digits_text ds ++ s) ≡ after b':' s
after-digits_text [] s all = refl
after-digits_text (d ∷ ds) s (digit, all) =
    let no_colon : hex_digit d == b':' ≡ false = ground arith in
    let no_end : hex_digit d == 0 ≡ false = ground arith in
    rw (no_colon, no_end) (after-digits_text ds s all)

pub after-address_size :
    (address size : Number) (s : List ℕ)
    → IsNumber address
    → IsNumber size
    → after b':' (address_size address size (b':' ∷ s)) ≡ s
after-address_size address size s (all, _) (all', _) =
    after-digits_text (digits address) (b',' ∷ (digits_text (digits size) ++ (b':' ∷ s))) all
    ∙ after-digits_text (digits size) (b':' ∷ s) all'

is_body-++ : (s q : List ℕ) → is_body s ≡ true → is_body q ≡ true → is_body (s ++ q) ≡ true
is_body-++ [] q h k = k
is_body-++ (c ∷ s) q h k =
    let (plain, rest) = halves (c != b'$') (c != b'#' && is_body s) h in
    let (plain', body) = halves (c != b'#') (is_body s) rest in
    rw (plain, plain') (is_body-++ s q body k)
  where
    halves : (a b : Bool) → a && b ≡ true → (a ≡ true) × (b ≡ true)
    halves a b e = ground arith

is_body-digits_text : (ds : List ℕ) → AllDigits ds → is_body (digits_text ds) ≡ true
is_body-digits_text [] all = refl
is_body-digits_text (d ∷ ds) (digit, all) =
    let no_dollar : hex_digit d != b'$' ≡ true = ground arith in
    let no_hash : hex_digit d != b'#' ≡ true = ground arith in
    rw (no_dollar, no_hash) (is_body-digits_text ds all)

pub is_body-escapes : (bytes : List ℕ) → is_body (escapes bytes) ≡ true
is_body-escapes [] = refl
is_body-escapes (b ∷ bytes) =
    is_body-++ (escaped b) (escapes bytes) (plain b) (is_body-escapes bytes)
  where
    plain : (c : ℕ) → is_body (escaped c) ≡ true
    plain c = ground arith

pub is_body-address_size :
    (address size : Number) (rest : List ℕ)
    → IsNumber address
    → IsNumber size
    → is_body rest ≡ true
    → is_body (address_size address size rest) ≡ true
is_body-address_size address size rest (all, _) (all', _) body =
    is_body-++ (digits_text (digits address)) (b',' ∷ (digits_text (digits size) ++ rest))
      (is_body-digits_text (digits address) all)
      (is_body-++ (digits_text (digits size)) rest (is_body-digits_text (digits size) all') body)
