-- ===== src/Gdb/Scan.antt =====
-- The numbers that gdb_protocol.c prints with `%02x` and reads with `%x`, `%02x` and `atoi`.
use progs.Prelude.{
  ℕ, ◌+◌, ◌-◌, ◌*◌, ◌/◌, ◌%◌, Bool, ◌&&◌, ◌||◌, Option, none, some, ltb, ◌==◌, ◌!=◌, if◌then◌else◌,
  List, [], ◌∷◌,
}
use progs.Prelude.Word.{u32, sub32}
use progs.Prelude.Lists.{length}

abbrev pub hex_digit : ℕ → ℕ
hex_digit d = if ltb d 10 then 48 + d else 87 + d

-- `sprintf(data, "%02x", v)` of a byte.
abbrev pub hex2 : ℕ → List ℕ
hex2 v = hex_digit (v / 16) ∷ hex_digit (v % 16) ∷ []

-- `isspace`
abbrev pub is_space : ℕ → Bool
is_space c = c == 32 || ltb 8 c && ltb c 14

-- 16 or more is no digit.
abbrev pub hex_value : ℕ → ℕ
hex_value c =
    if ltb 47 c && ltb c 58
    then c - 48
    else if ltb 96 c && ltb c 103
    then c - 87
    else if ltb 64 c && ltb c 71
    then c - 55
    else 16

abbrev pub dec_value : ℕ → ℕ
dec_value c = if ltb 47 c && ltb c 58 then c - 48 else 16

-- A number and the characters after it.
abbrev pub Scanned : Type 0
Scanned = ℕ × List ℕ

-- Digits in `base`, at most `width` characters of them.
abbrev pub digits_from : (value : ℕ → ℕ) (base : ℕ) → List ℕ → (width acc : ℕ) → Scanned
digits_from value base [] width acc = (acc, [])
digits_from value base (c ∷ s) width acc =
    let rest = digits_from value base s (width - 1) (acc * base + value c) in
    if width == 0 || ltb 15 (value c) then (acc, c ∷ s) else rest

-- `strtoul` stops at ULONG_MAX on a 64-bit host.
abbrev pub saturate : (max : ℕ) → Scanned → Scanned
saturate max (v, s) = ((if ltb max v then max else v), s)

abbrev pub scan_digits : List ℕ → (width : ℕ) → Option Scanned
scan_digits [] width = none
scan_digits (c ∷ s) width =
    if width == 0 || ltb 15 (hex_value c)
    then none
    else some (saturate 18446744073709551615 (digits_from hex_value 16 (c ∷ s) width 0))

-- An optional `0x`, which counts in the width, and digits.
abbrev pub scan_unsigned : List ℕ → (width : ℕ) → Option Scanned
scan_unsigned [] width = none
scan_unsigned (c ∷ []) width = scan_digits (c ∷ []) width
scan_unsigned (c ∷ x ∷ s) width =
    if c == 48 && (x == 120 || x == 88) && ltb 1 width
    then scan_digits s (width - 2)
    else scan_digits (c ∷ x ∷ s) width

abbrev pub negated : Option Scanned → Option Scanned
negated none = none
negated (some (v, s)) = some (
  (if v == 18446744073709551615 then v else (18446744073709551616 - v) % 18446744073709551616),
  s,
)

abbrev pub scan_signed : List ℕ → (width : ℕ) → Option Scanned
scan_signed [] width = none
scan_signed (c ∷ s) width =
    if c == 45 && width != 0
    then negated (scan_unsigned s (width - 1))
    else if c == 43 && width != 0
    then scan_unsigned s (width - 1)
    else scan_unsigned (c ∷ s) width

abbrev pub skip_spaces : List ℕ → List ℕ
skip_spaces [] = []
skip_spaces (c ∷ s) = let rest = skip_spaces s in if is_space c then rest else c ∷ s

abbrev pub as_unsigned : Option Scanned → Option Scanned
as_unsigned none = none
as_unsigned (some (v, s)) = some (u32 v, s)

-- `%x` with a maximal width: `none` if nothing is assigned.
abbrev pub scan_hex : (width : ℕ) → List ℕ → Option Scanned
scan_hex width s = as_unsigned (scan_signed (skip_spaces s) width)

-- `atoi`, as a word: `strtol` in base 10, converted to int.
abbrev pub atoi_digits : List ℕ → (max : ℕ) → ℕ
atoi_digits s max = u32 ((saturate max (digits_from dec_value 10 s (length s) 0)).0)

abbrev pub atoi_signed : List ℕ → ℕ
atoi_signed [] = 0
atoi_signed (c ∷ s) =
    if c == 45
    then sub32 0 (atoi_digits s 9223372036854775808)
    else if c == 43
    then atoi_digits s 9223372036854775807
    else atoi_digits (c ∷ s) 9223372036854775807

abbrev pub atoi : List ℕ → ℕ
atoi s = atoi_signed (skip_spaces s)
