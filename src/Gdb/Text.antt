-- ===== src/Gdb/Text.antt =====
-- The strings of gdb_protocol.c, as lists of character codes, and string.h's tests on strings.
use progs.Prelude.{ℕ, Bool, true, false, ◌==◌, if◌then◌else◌, List, [], ◌∷◌}

-- "S04"
abbrev pub s04 : List ℕ
s04 = 83 ∷ 48 ∷ 52 ∷ []

-- "S10"
abbrev pub s10 : List ℕ
s10 = 83 ∷ 49 ∷ 48 ∷ []

-- "S05"
abbrev pub s05 : List ℕ
s05 = 83 ∷ 48 ∷ 53 ∷ []

-- "OK"
abbrev pub ok : List ℕ
ok = 79 ∷ 75 ∷ []

-- "E01"
abbrev pub e01 : List ℕ
e01 = 69 ∷ 48 ∷ 49 ∷ []

-- "E02"
abbrev pub e02 : List ℕ
e02 = 69 ∷ 48 ∷ 50 ∷ []

-- "Offsets"
abbrev pub offsets : List ℕ
offsets = 79 ∷ 102 ∷ 102 ∷ 115 ∷ 101 ∷ 116 ∷ 115 ∷ []

-- "Text=0;Data=0;Bss=0"
abbrev pub offsets_answer : List ℕ
offsets_answer =
    84 ∷ 101 ∷ 120 ∷ 116 ∷ 61 ∷ 48 ∷ 59 ∷ 68 ∷ 97 ∷ 116 ∷ 97 ∷ 61 ∷ 48 ∷ 59 ∷ 66 ∷ 115 ∷ 115 ∷ 61
    ∷ 48 ∷ []

-- "Supported"
abbrev pub supported : List ℕ
supported = 83 ∷ 117 ∷ 112 ∷ 112 ∷ 111 ∷ 114 ∷ 116 ∷ 101 ∷ 100 ∷ []

-- "PacketSize=400"
abbrev pub supported_answer : List ℕ
supported_answer = 80 ∷ 97 ∷ 99 ∷ 107 ∷ 101 ∷ 116 ∷ 83 ∷ 105 ∷ 122 ∷ 101 ∷ 61 ∷ 52 ∷ 48 ∷ 48 ∷ []

-- "TStatus"
abbrev pub t_status : List ℕ
t_status = 84 ∷ 83 ∷ 116 ∷ 97 ∷ 116 ∷ 117 ∷ 115 ∷ []

-- "T0;tnotrun:0"
abbrev pub t_status_answer : List ℕ
t_status_answer = 84 ∷ 48 ∷ 59 ∷ 116 ∷ 110 ∷ 111 ∷ 116 ∷ 114 ∷ 117 ∷ 110 ∷ 58 ∷ 48 ∷ []

-- "Symbol::"
abbrev pub symbol : List ℕ
symbol = 83 ∷ 121 ∷ 109 ∷ 98 ∷ 111 ∷ 108 ∷ 58 ∷ 58 ∷ []

-- "xxxxxxxx"
abbrev pub eight_x : List ℕ
eight_x = 120 ∷ 120 ∷ 120 ∷ 120 ∷ 120 ∷ 120 ∷ 120 ∷ 120 ∷ []

-- The characters before the first NUL.
abbrev pub c_string : List ℕ → List ℕ
c_string [] = []
c_string (c ∷ s) = let rest = c_string s in if c == 0 then [] else c ∷ rest

-- `strcmp(a, b) == 0` on strings without their NUL.
abbrev pub same_string : (a b : List ℕ) → Bool
same_string [] [] = true
same_string [] (y ∷ b) = false
same_string (x ∷ a) [] = false
same_string (x ∷ a) (y ∷ b) = let rest = same_string a b in if x == y then rest else false

-- `strncmp(a, b, strlen(b)) == 0`.
abbrev pub starts_with : (a b : List ℕ) → Bool
starts_with a [] = true
starts_with [] (y ∷ b) = false
starts_with (x ∷ a) (y ∷ b) = let rest = starts_with a b in if x == y then rest else false

-- What follows the first `c` of the string, `index(s, c) + 1`, and nothing if there is none.
abbrev pub after : (c : ℕ) → List ℕ → List ℕ
after c [] = []
after c (x ∷ s) = let rest = after c s in if x == c then s else if x == 0 then [] else rest
