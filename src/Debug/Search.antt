-- ===== src/Debug/Search.antt =====
-- The binary search of debug.c.
use progs.Prelude.{
  ℕ, zero, suc, ◌+◌, ◌-◌, ◌/◌, ◌<◌, ◌≤◌, ◌≡◌, ◌≢◌, inl, inr, refl, ap, ◌∙◌, Bool-cases, arith, ltb,
  ltb→lt, List,
}
use progs.Debug.{Debugged, search_loop, is_debugged}
use progs.Debug.Compare.{strcmp, strcmp-≤, strcmp_self, strcmp_trans, strcmp-same}

-- No entry comes after a later one.
abbrev pub IsSorted : Debugged → Type 0
IsSorted d = (i j : ℕ) → i ≤ j → j < d.count → strcmp (d.files i) (d.files j) ≤ 1

module _ (d : Debugged) (name : List ℕ) where
  absent :
      (rounds from past : ℕ)
      → ((i : ℕ) → from ≤ i → i < past → strcmp (d.files i) name ≢ 1)
      → search_loop rounds d name from past ≡ 0
  unfolding search_loop
  absent zero from past none_there = refl
  absent (suc rounds) from past none_there =
      let middle = (from + past - 1) / 2 in
      ground (
        arith,
        strcmp-≤ (d.files middle) name,
        none_there middle,
        none_there from,
        absent rounds (middle + 1) past (λ i low high. none_there i (omega arith) high),
        absent rounds from middle (λ i low high. none_there i low (omega arith)),
      )

  module _ (sorted : IsSorted d) (i : ℕ) (there : strcmp (d.files i) name ≡ 1)
      (inside : i < d.count) where
    to_the_right : (middle : ℕ) → middle < d.count → strcmp (d.files middle) name ≡ 0 → middle < i
    to_the_right middle m low = elim (Bool-cases (ltb middle i)) [
      | inl apart ↦ ltb→lt middle i apart
      | inr met ↦
          let here : i ≤ middle = ground arith in
          let (_, bound) =
            strcmp_trans (d.files i) (d.files middle) name (sorted i middle here m) (omega arith) in
          absurd (omega arith)
    ]

    to_the_left : (middle : ℕ) → middle < d.count → strcmp (d.files middle) name ≡ 2 → i < middle
    to_the_left middle m high = elim (Bool-cases (ltb i middle)) [
      | inl apart ↦ ltb→lt i middle apart
      | inr met ↦
          let here : middle ≤ i = ground arith in
          let (_, bound) =
            strcmp_trans (d.files middle) (d.files i) name (sorted middle i here inside)
              (omega arith) in
          absurd (omega arith)
    ]

    present :
        (rounds from past : ℕ)
        → past ≤ d.count
        → past < rounds + from
        → from ≤ i
        → i < past
        → search_loop rounds d name from past ≡ 1
    unfolding search_loop
    present zero from past fits enough low high = absurd (omega arith)
    present (suc rounds) from past fits enough low high =
        let middle = (from + past - 1) / 2 in
        let right : strcmp (d.files middle) name ≡ 0
            → search_loop rounds d name (middle + 1) past ≡ 1 =
          λ h.
            let after_it = to_the_right middle (omega arith) h in
            present rounds (middle + 1) past fits (omega arith) (omega arith) high in
        let left : strcmp (d.files middle) name ≡ 2 → search_loop rounds d name from middle ≡ 1 =
          λ h.
            let before_it = to_the_left middle (omega arith) h in
            present rounds from middle (omega arith) (omega arith) low before_it in
        let only : past ≡ from + 1 → strcmp (d.files from) name ≡ 1 =
          λ h. ap (λ (k : ℕ). strcmp (d.files k) name) (one_left from past i h low high) ∙ there in
        ground (arith, strcmp-≤ (d.files middle) name, right, left, only)
      where
        one_left : (from past i : ℕ) → past ≡ from + 1 → from ≤ i → i < past → from ≡ i
        one_left from past i h low high = omega arith

-- On a sorted list `__is_debugged` answers 1 for every name of the list, and 0 for any other.
pub is_debugged_lem :
    (d : Debugged) (name : List ℕ)
    → IsSorted d
    → ((i : ℕ) → i < d.count → d.files i ≡ name → is_debugged name d ≡ 1)
      × (((i : ℕ) → i < d.count → d.files i ≢ name) → is_debugged name d ≡ 0)
unfolding is_debugged
is_debugged_lem d name sorted = (
  λ i inside same.
      present d name sorted i (ap (λ (s : List ℕ). strcmp s name) same ∙ strcmp_self name) inside
        (d.count + 1) 0 d.count (omega arith) (omega arith) (omega arith) inside,
  λ nowhere.
      absent d name (d.count + 1) 0 d.count
        (λ i low high found. nowhere i high (strcmp-same (d.files i) name found)),
)
