-- ===== src/Gdb/Program.antt =====
-- A program that the command X of gdb_protocol.c stores: its words stand in the memory.
use progs.Prelude.{
  ℕ, ◌+◌, ◌*◌, ◌/◌, ◌%◌, ◌<◌, ◌≡◌, refl, ap, ◌∙◌, Bool, true, false, arith, List, [], ◌∷◌,
}
use mathlib.Core.Path.{subst⁻¹}
use progs.Prelude.Word.{word_size}
use progs.Prelude.Lists.{length}
use progs.Memory.{Memory}
use progs.Memory.Layout.{word_at, put_byte, put_word}
use progs.Memory.RoundTrip.{word_at-put_word}
use progs.Machine.Block.{StandAt}
use progs.Gdb.Writing.{put_bytes, AllBytes}
use progs.Gdb.MemoryTrip.{before-put_bytes, put_bytes-shape}

-- The bytes of a word in the byte order of the memory, and those of a program.
abbrev pub word_bytes : (big : Bool) → ℕ → List ℕ → List ℕ
word_bytes true v rest = v / 16777216 ∷ v / 65536 % 256 ∷ v / 256 % 256 ∷ v % 256 ∷ rest
word_bytes false v rest = v % 256 ∷ v / 256 % 256 ∷ v / 65536 % 256 ∷ v / 16777216 ∷ rest

abbrev pub program_bytes : (big : Bool) → List ℕ → List ℕ
program_bytes big [] = []
program_bytes big (v ∷ vs) = word_bytes big v (program_bytes big vs)

abbrev pub AreWords : List ℕ → Type 0
AreWords [] = Unit {0}
AreWords (v ∷ vs) = (v < word_size) × AreWords vs

pub length-program_bytes :
    (big : Bool) (vs : List ℕ) → length (program_bytes big vs) ≡ 4 * length vs
length-program_bytes big [] = refl
length-program_bytes true (v ∷ vs) = omega (arith, length-program_bytes true vs)
length-program_bytes false (v ∷ vs) = omega (arith, length-program_bytes false vs)

pub program_bytes-AllBytes :
    (big : Bool) (vs : List ℕ) → AreWords vs → AllBytes (program_bytes big vs)
program_bytes-AllBytes big [] words = tt
program_bytes-AllBytes true (v ∷ vs) (word, words) =
    (omega arith, (omega arith, (omega arith, (omega arith, program_bytes-AllBytes true vs words))))
program_bytes-AllBytes false (v ∷ vs) (word, words) = (
  omega arith,
  (omega arith, (omega arith, (omega arith, program_bytes-AllBytes false vs words))),
)

abbrev put_four : Memory → (a b c d : ℕ) → (w x y z : ℕ) → Memory
put_four m a b c d w x y z = put_byte (put_byte (put_byte (put_byte m a w) b x) c y) d z

in_a_row :
    (m : Memory) (a w x y z : ℕ) (rest : List ℕ)
    → put_bytes m a (w ∷ x ∷ y ∷ z ∷ rest)
      ≡ put_bytes (put_four m a (a + 1) (a + 2) (a + 3) w x y z) (a + 4) rest
in_a_row m a w x y z rest =
    ap
      (λ (c : ℕ).
        put_bytes (put_four m a (a + 1) c (a + 1 + 1 + 1) w x y z) (a + 1 + 1 + 1 + 1) rest)
      (omega arith)
    ∙ ap (λ (d : ℕ). put_bytes (put_four m a (a + 1) (a + 2) d w x y z) (a + 1 + 1 + 1 + 1) rest)
        (omega arith)
    ∙ ap (λ (e : ℕ). put_bytes (put_four m a (a + 1) (a + 2) (a + 3) w x y z) e rest) (omega arith)

put_bytes-word_bytes :
    (big : Bool) (m : Memory) (a v : ℕ) (rest : List ℕ)
    → m.is_big_endian ≡ big
    → put_bytes m a (word_bytes big v rest) ≡ put_bytes (put_word m a v) (a + 4) rest
put_bytes-word_bytes true m a v rest order =
    in_a_row m a (v / 16777216) (v / 65536 % 256) (v / 256 % 256) (v % 256) rest ∙ rw order refl
put_bytes-word_bytes false m a v rest order =
    in_a_row m a (v % 256) (v / 256 % 256) (v / 65536 % 256) (v / 16777216) rest ∙ rw order refl

word_at-same :
    (m m' : Memory) (a : ℕ)
    → m'.is_big_endian ≡ m.is_big_endian
    → ((i : ℕ) → i < a + 4 → m'.memo i ≡ m.memo i)
    → word_at m' a ≡ word_at m a
word_at-same m m' a order same =
    rw
      (
        order,
        same a (omega arith),
        same (a + 1) (omega arith),
        same (a + 2) (omega arith),
        same (a + 3) (omega arith),
      )
      refl

pub StandAt-program_bytes :
    (m : Memory) (a : ℕ) (vs : List ℕ)
    → AreWords vs
    → StandAt (put_bytes m a (program_bytes m.is_big_endian vs)) a vs
StandAt-program_bytes m a [] words = tt
StandAt-program_bytes m a (v ∷ vs) (word, words) =
    let next = put_word m a v in
    let rest = program_bytes m.is_big_endian vs in
    let final = put_bytes next (a + 4) rest in
    let order = (put_bytes-shape next (a + 4) rest).1 in
    subst⁻¹ (λ (m' : Memory). StandAt m' a (v ∷ vs))
      (put_bytes-word_bytes m.is_big_endian m a v rest refl)
      (
        word_at-same next final a order (λ i below. before-put_bytes next (a + 4) i rest below)
            ∙ word_at-put_word m a v word,
        StandAt-program_bytes next (a + 4) vs words,
      )
