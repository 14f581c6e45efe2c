-- ===== src/Simulator/LongOptions.antt =====
-- The tables that `main` of arm_simulator.c gives getopt_long.
use progs.Prelude.{ℕ, ◌≡◌, refl, Bool, true, false, ◌||◌, ◌==◌, if◌then◌else◌, List, [], ◌∷◌}

-- `struct option`, less the flag pointer, which is NULL in every entry.
pub record LongOption : Type 0 where
  pub name : List ℕ
  pub has_arg : Bool
  pub val : ℕ

abbrev long_option : List ℕ → Bool → ℕ → LongOption
long_option name has_arg val = record { name = name; has_arg = has_arg; val = val }

abbrev pub longopts : List LongOption
longopts =
    long_option (b'g' ∷ b'd' ∷ b'b' ∷ b'-' ∷ b'p' ∷ b'o' ∷ b'r' ∷ b't' ∷ []) true b'g'
    ∷ long_option (b'i' ∷ b'r' ∷ b'q' ∷ b'-' ∷ b'p' ∷ b'o' ∷ b'r' ∷ b't' ∷ []) true b'i'
    ∷ long_option (b't' ∷ b'r' ∷ b'a' ∷ b'c' ∷ b'e' ∷ b'-' ∷ b'f' ∷ b'i' ∷ b'l' ∷ b'e' ∷ []) true
        b't'
    ∷ long_option
        (b't' ∷ b'r' ∷ b'a' ∷ b'c' ∷ b'e' ∷ b'-' ∷ b'r' ∷ b'e' ∷ b'g' ∷ b'i' ∷ b's' ∷ b't' ∷ b'e'
          ∷ b'r' ∷ b's' ∷ [])
        false b'r'
    ∷ long_option
        (b't' ∷ b'r' ∷ b'a' ∷ b'c' ∷ b'e' ∷ b'-' ∷ b'm' ∷ b'e' ∷ b'm' ∷ b'o' ∷ b'r' ∷ b'y' ∷ [])
        false b'm'
    ∷ long_option (b't' ∷ b'r' ∷ b'a' ∷ b'c' ∷ b'e' ∷ b'-' ∷ b's' ∷ b't' ∷ b'a' ∷ b't' ∷ b'e' ∷ [])
        false b's'
    ∷ long_option
        (b't' ∷ b'r' ∷ b'a' ∷ b'c' ∷ b'e' ∷ b'-' ∷ b'p' ∷ b'o' ∷ b's' ∷ b'i' ∷ b't' ∷ b'i' ∷ b'o'
          ∷ b'n' ∷ [])
        false b'p'
    ∷ long_option (b'h' ∷ b'e' ∷ b'l' ∷ b'p' ∷ []) false b'h'
    ∷ long_option (b'd' ∷ b'e' ∷ b'b' ∷ b'u' ∷ b'g' ∷ []) true b'd'
    ∷ []

-- "g:i:ht:rmspd:"
abbrev pub optstring : List ℕ
optstring =
    b'g' ∷ b':' ∷ b'i' ∷ b':' ∷ b'h' ∷ b't' ∷ b':' ∷ b'r' ∷ b'm' ∷ b's' ∷ b'p' ∷ b'd' ∷ b':' ∷ []

-- Whether the letter is in the string, and whether a colon follows it there, as getopt reads it.
abbrev colon_follows : List ℕ → Bool
colon_follows [] = false
colon_follows (c ∷ s) = c == b':'

abbrev pub takes_argument : (letter : ℕ) → List ℕ → Bool
takes_argument letter [] = false
takes_argument letter (c ∷ s) =
    let later = takes_argument letter s in if c == letter then colon_follows s else later

abbrev pub is_short : (letter : ℕ) → List ℕ → Bool
is_short letter [] = false
is_short letter (c ∷ s) = c == letter || is_short letter s

-- The long options agree with the short ones: each has a letter of the string, with an argument in
-- both or in neither.
abbrev pub Agree : List LongOption → Type 0
Agree [] = Unit {0}
Agree (o ∷ os) =
    (is_short o.val optstring ≡ true) × (takes_argument o.val optstring ≡ o.has_arg) × Agree os

longopts-Agree : Agree longopts
longopts-Agree = (
  refl,
  refl,
  (
    refl,
    refl,
    (
      refl,
      refl,
      (refl, refl, (refl, refl, (refl, refl, (refl, refl, (refl, refl, (refl, refl, tt)))))),
    ),
  ),
)
