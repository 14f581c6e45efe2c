-- ===== src/Gdb/Words.antt =====
-- The hexadecimal words of gdb_protocol.c: what is written is read back.
use progs.Prelude.{
  ℕ, suc, inl, inr, Bool-cases, ◌+◌, ◌-◌, ◌*◌, ◌/◌, ◌%◌, ◌<◌, ◌≡◌, refl, ap, ◌∙◌, Bool, true, false,
  arith, ◌==◌, ◌!=◌, if◌then◌else◌, Option, some, List, [], ◌∷◌, ◌++◌,
}
use progs.Prelude.Word.{word_size, u8, u32}
use progs.Prelude.Lists.{length}
use progs.Util.{Target}
use progs.Memory.{to_bytes, of_bytes}
use progs.Gdb.{
  write_uint32, read_uint32, read_bytes, hex_bytes, word_of, in_order, same_order, cons_byte,
  scanned_or,
}
use progs.Gdb.Scan.{
  hex_digit, hex2, hex_value, digits_from, skip_spaces, scan_signed, scan_unsigned, scan_digits,
  scan_hex, as_unsigned, Scanned,
}

no_width :
    (value : ℕ → ℕ) (base : ℕ) (s : List ℕ) (acc : ℕ) → digits_from value base s 0 acc ≡ (acc, s)
no_width value base [] acc = refl
no_width value base (c ∷ s) acc = refl

pub hex_value-hex_digit : (d : ℕ) → d < 16 → hex_value (hex_digit d) ≡ d
hex_value-hex_digit d h = ground arith

pub hex_digit-bounds :
    (d : ℕ) → d < 16 → (47 < hex_digit d) × (hex_digit d != 88 ≡ true) × (hex_digit d < 103)
hex_digit-bounds d h = (ground arith, ground arith, ground arith)

module _ (c x : ℕ) (s : List ℕ) (not_space : 47 < c) where
  pub no_space : skip_spaces (c ∷ x ∷ s) ≡ c ∷ x ∷ s
  no_space = ground arith

  pub no_sign : (w : ℕ) → scan_signed (c ∷ x ∷ s) w ≡ scan_unsigned (c ∷ x ∷ s) w
  no_sign w = ground arith

pub no_prefix :
    (c x : ℕ) (s : List ℕ) (w : ℕ)
    → x != 88 ≡ true
    → x < 103
    → scan_unsigned (c ∷ x ∷ s) w ≡ scan_digits (c ∷ x ∷ s) w
no_prefix c x s w h k = ground arith

-- The scan ends after two digits, as the width or the next character says.
abbrev StopsAt : (w : ℕ) → List ℕ → Type 0
StopsAt w s = (acc : ℕ) → digits_from hex_value 16 s (w - 1 - 1) acc ≡ (acc, s)

two_digits :
    (c x d e w : ℕ) (s : List ℕ)
    → hex_value c ≡ d
    → hex_value x ≡ e
    → d < 16
    → e < 16
    → 1 < w
    → StopsAt w s
    → scan_digits (c ∷ x ∷ s) w ≡ some (d * 16 + e, s)
two_digits c x d e w s hc hx hd he hw stop = rw (hc, hx, stop ((0 + d) * 16 + e)) (ground arith)

small_word : (b : ℕ) → b < 256 → u32 b ≡ b
small_word b h = omega arith

scan_hex-two :
    (w b : ℕ) (s : List ℕ) → b < 256 → 1 < w → StopsAt w s → scan_hex w (hex2 b ++ s) ≡ some (b, s)
scan_hex-two w b s h hw stop =
    let d = b / 16 in
    let e = b % 16 in
    let hd : d < 16 = omega arith in
    let he : e < 16 = omega arith in
    let (low, _, _) = hex_digit-bounds d hd in
    let (_, plain, high) = hex_digit-bounds e he in
    let split : d * 16 + e ≡ b = omega arith in
    ap (λ (q : List ℕ). as_unsigned (scan_signed q w)) (no_space (hex_digit d) (hex_digit e) s low)
    ∙ ap as_unsigned (
        no_sign (hex_digit d) (hex_digit e) s low w
        ∙ no_prefix (hex_digit d) (hex_digit e) s w plain high
        ∙ two_digits (hex_digit d) (hex_digit e) d e w s (hex_value-hex_digit d hd)
            (hex_value-hex_digit e he) hd he hw stop
        ∙ ap (λ (v : ℕ). some (v, s)) split)
    ∙ ap (λ (v : ℕ). some (v, s)) (small_word b h)

scan_hex-hex2 : (b : ℕ) (s : List ℕ) → b < 256 → scan_hex 2 (hex2 b ++ s) ≡ some (b, s)
scan_hex-hex2 b s h = scan_hex-two 2 b s h (omega arith) (no_width hex_value 16 s)

-- The two digits of a checksum, with the NUL after them.
pub scan_hex-checksum : (b : ℕ) → b < 256 → scan_hex 3 (hex2 b ++ (0 ∷ [])) ≡ some (b, 0 ∷ [])
scan_hex-checksum b h = scan_hex-two 3 b (0 ∷ []) h (omega arith) (λ acc. refl)

read_next :
    (n value b : ℕ) (s bytes : List ℕ)
    → b < 256
    → read_bytes n b s ≡ some bytes
    → read_bytes (suc n) value (hex2 b ++ s) ≡ some (b ∷ bytes)
read_next n value b s bytes h rest =
    ap
      (λ (x : Option Scanned).
        cons_byte (u8 (scanned_or value x)) (read_bytes n (scanned_or value x) s))
      (scan_hex-hex2 b s h)
    ∙ ap (cons_byte (u8 b)) rest
    ∙ ap (λ (v : ℕ). some (v ∷ bytes)) (small_byte b h)
  where
    small_byte : (v : ℕ) → v < 256 → u8 v ≡ v
    small_byte v small = omega arith

read_four :
    (value a b c d : ℕ) (s : List ℕ)
    → a < 256
    → b < 256
    → c < 256
    → d < 256
    → read_bytes 4 value (hex_bytes (a ∷ b ∷ c ∷ d ∷ []) ++ s) ≡ some (a ∷ b ∷ c ∷ d ∷ [])
read_four value a b c d s ha hb hc hd =
    read_next 3 value a (hex_bytes (b ∷ c ∷ d ∷ []) ++ s) (b ∷ c ∷ d ∷ []) ha (
      read_next 2 a b (hex_bytes (c ∷ d ∷ []) ++ s) (c ∷ d ∷ []) hb
        (read_next 1 b c (hex_bytes (d ∷ []) ++ s) (d ∷ []) hc (read_next 0 c d s [] hd refl)))

read_ordered :
    (o : Bool) (value a b c d : ℕ) (s : List ℕ)
    → a < 256
    → b < 256
    → c < 256
    → d < 256
    → let bytes = in_order o (a ∷ b ∷ c ∷ d ∷ []) in
      read_bytes 4 value (hex_bytes bytes ++ s) ≡ some bytes
read_ordered true value a b c d s ha hb hc hd = read_four value a b c d s ha hb hc hd
read_ordered false value a b c d s ha hb hc hd = read_four value d c b a s hd hc hb ha

in_order-in_order :
    (o : Bool) (a b c d : ℕ) → in_order o (in_order o (a ∷ b ∷ c ∷ d ∷ [])) ≡ a ∷ b ∷ c ∷ d ∷ []
in_order-in_order true a b c d = refl
in_order-in_order false a b c d = refl

module _ (t : Target) (target_big_endian : Bool) (value a b c d : ℕ) (s : List ℕ) (ha : a < 256)
    (hb : b < 256) (hc : c < 256) (hd : d < 256) where
  read_back :
      word_of t target_big_endian (
        read_bytes 4 value
          (hex_bytes (in_order (same_order t target_big_endian) (a ∷ b ∷ c ∷ d ∷ [])) ++ s))
      ≡ some (of_bytes t (a ∷ b ∷ c ∷ d ∷ []))
  read_back =
      let o = same_order t target_big_endian in
      ap (word_of t target_big_endian) (read_ordered o value a b c d s ha hb hc hd)
      ∙ ap (λ (q : List ℕ). some (of_bytes t q)) (in_order-in_order o a b c d)

  -- Any list equal to these four.
  read_list :
      (bytes : List ℕ) (v : ℕ)
      → bytes ≡ a ∷ b ∷ c ∷ d ∷ []
      → of_bytes t (a ∷ b ∷ c ∷ d ∷ []) ≡ v
      → word_of t target_big_endian
          (read_bytes 4 value (hex_bytes (in_order (same_order t target_big_endian) bytes) ++ s))
        ≡ some v
  read_list bytes v same word =
      ap
        (λ (q : List ℕ).
          word_of t target_big_endian
            (read_bytes 4 value (hex_bytes (in_order (same_order t target_big_endian) q) ++ s)))
        same
      ∙ read_back
      ∙ ap some word

-- A word that `write_uint32` prints is read back by `read_uint32`, whatever follows it, on either
-- host and in either byte order of the simulated target.
pub read_uint32-write_uint32 :
    (t : Target) (target_big_endian : Bool) (junk v : ℕ) (rest : List ℕ)
    → v < word_size
    → read_uint32 t target_big_endian junk (write_uint32 t target_big_endian v ++ rest) ≡ some v
unfolding read_uint32 write_uint32
read_uint32-write_uint32 t target_big_endian junk v rest h = elim (Bool-cases t.host_big_endian) [
  | inl big ↦
      read_list t target_big_endian junk (v / 16777216 % 256) (v / 65536 % 256) (v / 256 % 256)
        (v % 256) rest (omega arith) (omega arith) (omega arith) (omega arith) (to_bytes t v) v
        (rw big refl) (rw big (omega arith))
  | inr little ↦
      read_list t target_big_endian junk (v % 256) (v / 256 % 256) (v / 65536 % 256)
        (v / 16777216 % 256) rest (omega arith) (omega arith) (omega arith) (omega arith)
        (to_bytes t v) v (rw little refl) (rw little (omega arith))
]

-- One digit before a character that is no digit and no `x`.
pub one_digit :
    (w d x : ℕ) (s : List ℕ)
    → d < 16
    → 0 < w
    → hex_value x ≡ 16
    → (x == 88) ≡ false
    → (x == 120) ≡ false
    → scan_hex w (hex_digit d ∷ x ∷ s) ≡ some (d, x ∷ s)
one_digit w d x s hd hw none_left capital small =
    let (low, _, _) = hex_digit-bounds d hd in
    ap (λ (q : List ℕ). as_unsigned (scan_signed q w)) (no_space (hex_digit d) x s low)
    ∙ ap as_unsigned (no_sign (hex_digit d) x s low w ∙ no_x (hex_digit d))
    ∙ ap as_unsigned (the_digit (hex_digit d) (hex_value-hex_digit d hd))
    ∙ ap (λ (v : ℕ). some (v, x ∷ s)) (small_word d (omega arith))
  where
    no_x : (c : ℕ) → scan_unsigned (c ∷ x ∷ s) w ≡ scan_digits (c ∷ x ∷ s) w
    no_x c = ground arith

    the_digit : (c : ℕ) → hex_value c ≡ d → scan_digits (c ∷ x ∷ s) w ≡ some (d, x ∷ s)
    the_digit c hc = rw (hc, none_left) (ground arith)

length-in_order :
    (o : Bool) (a b c d : ℕ) → length (hex_bytes (in_order o (a ∷ b ∷ c ∷ d ∷ []))) ≡ 8
length-in_order true a b c d = refl
length-in_order false a b c d = refl

-- Eight digits.
pub length-write_uint32 :
    (t : Target) (target_big_endian : Bool) (v : ℕ)
    → length (write_uint32 t target_big_endian v) ≡ 8
unfolding write_uint32
length-write_uint32 t target_big_endian v =
    let o = same_order t target_big_endian in
    elim (Bool-cases t.host_big_endian) [
      | inl big ↦
          ap (λ (q : List ℕ). length (hex_bytes (in_order o q))) (four_bytes true big)
          ∙ length-in_order o (v / 16777216 % 256) (v / 65536 % 256) (v / 256 % 256) (v % 256)
      | inr little ↦
          ap (λ (q : List ℕ). length (hex_bytes (in_order o q))) (four_bytes false little)
          ∙ length-in_order o (v % 256) (v / 256 % 256) (v / 65536 % 256) (v / 16777216 % 256)
    ]
  where
    four_bytes :
        (b : Bool)
        → t.host_big_endian ≡ b
        → to_bytes t v ≡ (
            if b
            then v / 16777216 % 256 ∷ v / 65536 % 256 ∷ v / 256 % 256 ∷ v % 256 ∷ []
            else v % 256 ∷ v / 256 % 256 ∷ v / 65536 % 256 ∷ v / 16777216 % 256 ∷ [])
    four_bytes b h = rw h refl
