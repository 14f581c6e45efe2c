-- ===== src/Gdb/Digits.antt =====
-- The numbers of a request to gdb_protocol.c, in hexadecimal digits.
use progs.Prelude.{
  ℕ, ◌+◌, ◌-◌, ◌*◌, ◌<◌, ◌≤◌, ◌≡◌, refl, ap, ◌∙◌, true, false, some, arith, ltb, ◌==◌, ◌!=◌,
  if◌then◌else◌, List, [], ◌∷◌, ◌++◌,
}
use progs.Prelude.Word.{word_size, u32}
use progs.Prelude.Lists.{length}
use progs.Gdb.Scan.{
  Scanned, hex_digit, hex_value, digits_from, saturate, scan_digits, scan_signed, scan_hex,
  as_unsigned,
}
use progs.Gdb.Words.{hex_value-hex_digit, hex_digit-bounds, no_space, no_sign, no_prefix}

abbrev pub AllDigits : List ℕ → Type 0
AllDigits [] = Unit {0}
AllDigits (d ∷ ds) = (d < 16) × AllDigits ds

abbrev pub digits_text : List ℕ → List ℕ
digits_text [] = []
digits_text (d ∷ ds) = hex_digit d ∷ digits_text ds

-- The value of digits after those that make up `acc`.
abbrev pub of_digits : (acc : ℕ) → List ℕ → ℕ
of_digits acc [] = acc
of_digits acc (d ∷ ds) = of_digits (acc * 16 + d) ds

-- What may follow a number.
abbrev pub Ends : ℕ → Type 0
Ends y = (hex_value y ≡ 16) × (y != 88 ≡ true) × (y < 103)

digits_from-digits_text :
    (ds s : List ℕ) (w acc : ℕ)
    → AllDigits ds
    → length ds ≤ w
    → digits_from hex_value 16 (digits_text ds ++ s) w acc
      ≡ digits_from hex_value 16 s (w - length ds) (of_digits acc ds)
digits_from-digits_text [] s w acc all room =
    ap (λ (n : ℕ). digits_from hex_value 16 s n acc) (omega arith)
digits_from-digits_text (d ∷ ds) s w acc (digit, all) room =
    let value = hex_value-hex_digit d digit in
    let some_room : w == 0 ≡ false = ground arith in
    let in_base : ltb 15 d ≡ false = ground arith in
    let less : w - 1 - length ds ≡ w - length (d ∷ ds) = omega arith in
    rw (value, some_room, in_base)
      (digits_from-digits_text ds s (w - 1) (acc * 16 + d) all (omega arith)
        ∙ ap (λ (n : ℕ). digits_from hex_value 16 s n (of_digits (acc * 16 + d) ds)) less)

stop :
    (y w acc : ℕ) (s : List ℕ)
    → hex_value y ≡ 16
    → digits_from hex_value 16 (y ∷ s) w acc ≡ (acc, y ∷ s)
stop y w acc s e = rw e (ground arith)

scan_digits-digits_text :
    (d : ℕ) (ds : List ℕ) (y : ℕ) (s : List ℕ) (w : ℕ)
    → AllDigits (d ∷ ds)
    → Ends y
    → length (d ∷ ds) ≤ w
    → of_digits 0 (d ∷ ds) < word_size
    → scan_digits (digits_text (d ∷ ds) ++ (y ∷ s)) w ≡ some (of_digits 0 (d ∷ ds), y ∷ s)
scan_digits-digits_text d ds y s w (digit, all) (end, _, _) room small =
    let v = of_digits 0 (d ∷ ds) in
    let value = hex_value-hex_digit d digit in
    let some_room : w == 0 ≡ false = ground arith in
    let in_base : ltb 15 d ≡ false = ground arith in
    let read =
      digits_from-digits_text (d ∷ ds) (y ∷ s) w 0 (digit, all) room
      ∙ stop y (w - length (d ∷ ds)) v s end in
    let fits : (if ltb 18446744073709551615 v then 18446744073709551615 else v) ≡ v =
      ground arith in
    starts (hex_digit d) (digits_text ds ++ (y ∷ s)) w some_room (rw value in_base)
    ∙ ap (λ (r : Scanned). some (saturate 18446744073709551615 r)) read
    ∙ ap (λ (n : ℕ). some (n, y ∷ s)) fits
  where
    starts :
        (c : ℕ) (q : List ℕ) (k : ℕ)
        → k == 0 ≡ false
        → ltb 15 (hex_value c) ≡ false
        → scan_digits (c ∷ q) k
          ≡ some (saturate 18446744073709551615 (digits_from hex_value 16 (c ∷ q) k 0))
    starts c q k e f = rw (e, f) refl

-- No sign, space or prefix in front.
plain_number :
    (d x w : ℕ) (s : List ℕ)
    → d < 16
    → x != 88 ≡ true
    → x < 103
    → scan_hex w (hex_digit d ∷ x ∷ s) ≡ as_unsigned (scan_digits (hex_digit d ∷ x ∷ s) w)
plain_number d x w s digit plain high =
    let (low, _, _) = hex_digit-bounds d digit in
    ap (λ (q : List ℕ). as_unsigned (scan_signed q w)) (no_space (hex_digit d) x s low)
    ∙ ap as_unsigned (no_sign (hex_digit d) x s low w ∙ no_prefix (hex_digit d) x s w plain high)

-- A number of one digit or more is read whole, up to a character that ends it.
pub scan_hex-digits_text :
    (d : ℕ) (ds : List ℕ) (y : ℕ) (s : List ℕ) (w : ℕ)
    → AllDigits (d ∷ ds)
    → Ends y
    → length (d ∷ ds) ≤ w
    → of_digits 0 (d ∷ ds) < word_size
    → scan_hex w (digits_text (d ∷ ds) ++ (y ∷ s)) ≡ some (of_digits 0 (d ∷ ds), y ∷ s)
scan_hex-digits_text d ds y s w all end room small =
    start ds all.1
    ∙ ap as_unsigned (scan_digits-digits_text d ds y s w all end room small)
    ∙ ap (λ (n : ℕ). some (n, y ∷ s)) (wrapped (of_digits 0 (d ∷ ds)) small)
  where
    wrapped : (v : ℕ) → v < word_size → u32 v ≡ v
    wrapped v h = omega arith

    start :
        (es : List ℕ)
        → AllDigits es
        → scan_hex w (digits_text (d ∷ es) ++ (y ∷ s))
          ≡ as_unsigned (scan_digits (digits_text (d ∷ es) ++ (y ∷ s)) w)
    start [] h = plain_number d y w s all.0 end.1 end.2
    start (e ∷ es) (h, _) =
        let (_, plain, high) = hex_digit-bounds e h in
        plain_number d (hex_digit e) w (digits_text es ++ (y ∷ s)) all.0 plain high
