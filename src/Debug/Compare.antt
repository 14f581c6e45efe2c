-- ===== src/Debug/Compare.antt =====
-- The order of string.h's strcmp: 0 stands for a negative result, 1 for 0 and 2 for a positive one.
use progs.Prelude.{ℕ, ◌+◌, ◌≤◌, ◌≡◌, refl, ap₂, arith, ltb, if◌then◌else◌, List, [], ◌∷◌}

unfoldable pub strcmp : (a b : List ℕ) → ℕ
strcmp [] [] = 1
strcmp [] (y ∷ b) = 0
strcmp (x ∷ a) [] = 2
strcmp (x ∷ a) (y ∷ b) = let rest = strcmp a b in if ltb x y then 0 else if ltb y x then 2 else rest

pub strcmp-≤ : (a b : List ℕ) → strcmp a b ≤ 2
unfolding strcmp
strcmp-≤ [] [] = omega arith
strcmp-≤ [] (y ∷ b) = omega arith
strcmp-≤ (x ∷ a) [] = omega arith
strcmp-≤ (x ∷ a) (y ∷ b) = ground (arith, strcmp-≤ a b)

pub strcmp_self : (a : List ℕ) → strcmp a a ≡ 1
unfolding strcmp
strcmp_self [] = refl
strcmp_self (x ∷ a) = ground (arith, strcmp_self a)

pub strcmp_flip : (a b : List ℕ) → strcmp a b + strcmp b a ≡ 2
unfolding strcmp
strcmp_flip [] [] = refl
strcmp_flip [] (y ∷ b) = refl
strcmp_flip (x ∷ a) [] = refl
strcmp_flip (x ∷ a) (y ∷ b) = ground (arith, strcmp_flip a b)

-- `a` before `b` and `b` not after `c`: `a` before `c`; and the same with the strictness last.
pub strcmp_trans :
    (a b c : List ℕ)
    → strcmp a b ≤ 1
    → strcmp b c ≤ 1
    → (strcmp a c ≤ strcmp a b) × (strcmp a c ≤ strcmp b c)
unfolding strcmp
strcmp_trans [] [] [] p q = (omega arith, omega arith)
strcmp_trans [] [] (z ∷ c) p q = (omega arith, omega arith)
strcmp_trans [] (y ∷ b) [] p q = absurd (omega arith)
strcmp_trans [] (y ∷ b) (z ∷ c) p q = (omega arith, omega arith)
strcmp_trans (x ∷ a) [] c p q = absurd (omega arith)
strcmp_trans (x ∷ a) (y ∷ b) [] p q = absurd (omega arith)
strcmp_trans (x ∷ a) (y ∷ b) (z ∷ c) p q = ground (arith, strcmp_trans a b c)

-- Only equal strings compare as such.
pub strcmp-same : (a b : List ℕ) → strcmp a b ≡ 1 → a ≡ b
unfolding strcmp
strcmp-same [] [] h = refl
strcmp-same [] (y ∷ b) h = absurd (omega arith)
strcmp-same (x ∷ a) [] h = absurd (omega arith)
strcmp-same (x ∷ a) (y ∷ b) h =
    let head : x ≡ y = ground arith in
    let tail : strcmp a b ≡ 1 = ground arith in
    ap₂ (λ (q : ℕ) (s : List ℕ). q ∷ s) head (strcmp-same a b tail)
