-- ===== src/Debug/Insert.antt =====
-- `add_debug_to` of debug.c: insertion into the sorted list.
use progs.Prelude.{
  ℕ, zero, suc, ◌+◌, ◌-◌, ◌<◌, ◌≤◌, ◌≡◌, ◌⊎◌, inl, inr, refl, ap, ◌∙◌, Bool-cases, arith, ltb,
  ltb→lt, ◌==◌, ◌&&◌, if◌then◌else◌, some, none, List,
}
use progs.Debug.{Debugged, max_files_number, position_loop, shift_loop, add_debug_to, is_debugged}
use progs.Debug.Compare.{strcmp, strcmp_self, strcmp_trans, strcmp_flip}
use progs.Debug.Search.{IsSorted, is_debugged_lem}

-- `i` is where `name` goes: after the entries before it and no later.
abbrev pub IsPlace : Debugged → (name : List ℕ) → (i : ℕ) → Type 0
IsPlace d name i =
    (i ≤ d.count)
    × ((k : ℕ) → k < i → strcmp (d.files k) name ≡ 0)
    × (i < d.count → 0 < strcmp (d.files i) name)

split_last : (k i : ℕ) → k < i + 1 → (k < i) ⊎ (k ≡ i)
split_last k i h = elim (Bool-cases (ltb k i)) [
  | inl below ↦ inl (ltb→lt k i below)
  | inr above ↦ inr (ground arith)
]

module _ (d : Debugged) (name : List ℕ) (room : d.count < 64) where
  one_more :
      (i : ℕ)
      → ((k : ℕ) → k < i → strcmp (d.files k) name ≡ 0)
      → strcmp (d.files i) name ≡ 0
      → (k : ℕ) → k < i + 1
      → strcmp (d.files k) name ≡ 0
  one_more i before here k h = elim (split_last k i h) [
    | inl earlier ↦ before k earlier
    | inr same ↦ ap (λ (n : ℕ). strcmp (d.files n) name) same ∙ here
  ]

  decide :
      (i : ℕ)
      → ((i < d.count) × (strcmp (d.files i) name ≡ 0))
        ⊎ (i < d.count → 0 < strcmp (d.files i) name)
  decide i = elim (Bool-cases (ltb i d.count && strcmp (d.files i) name == 0)) [
    | inl goes_on ↦ inl (ground arith, ground arith)
    | inr stops ↦ inr (λ h. ground arith)
  ]

  position_loop-IsPlace :
      (rounds i : ℕ)
      → d.count < rounds + i
      → i ≤ d.count
      → ((k : ℕ) → k < i → strcmp (d.files k) name ≡ 0)
      → IsPlace d name (position_loop rounds d name i)
  unfolding position_loop
  position_loop-IsPlace zero i enough low before = absurd (omega arith)
  position_loop-IsPlace (suc rounds) i enough low before = elim (decide i) [
    | inl (inside, here) ↦
        let goes_on : position_loop (suc rounds) d name i ≡ position_loop rounds d name (i + 1) =
          ground arith in
        rw goes_on (
          position_loop-IsPlace rounds (i + 1) (omega arith) (omega arith) (one_more i before here))
    | inr stops ↦
        let ends : position_loop (suc rounds) d name i ≡ i = ground arith in
        rw ends (low, before, stops)
  ]

shift_loop_lem :
    (rounds j : ℕ) (files : ℕ → List ℕ) (k : ℕ)
    → rounds ≤ j
    → shift_loop rounds j files k
      ≡ (if ltb (j - rounds) k && ltb k (j + 1) then files (k - 1) else files k)
shift_loop_lem zero j files k h = ground arith
shift_loop_lem (suc rounds) j files k h =
    ground (arith, shift_loop_lem rounds (j - 1) (λ n. if n == j then files (j - 1) else files n) k)

-- The list with `name` put at place `i`.
abbrev pub inserted : Debugged → (name : List ℕ) → (i : ℕ) → Debugged
inserted d name i = record {
  files = λ k. if k == i then name else shift_loop (d.count - i) d.count d.files k;
  count = d.count + 1;
}

module _ (d : Debugged) (name : List ℕ) (i : ℕ) (sorted : IsSorted d)
    (place : IsPlace d name i) where
  abbrev entry : ℕ → List ℕ
  entry k = if k == i then name else if ltb i k then d.files (k - 1) else d.files k

  inserted-entry : (k : ℕ) → k < d.count + 1 → (inserted d name i).files k ≡ entry k
  inserted-entry k h =
      let fits = place.0 in
      ground (arith, shift_loop_lem (d.count - i) d.count d.files k (omega arith))

  before_place : (a : ℕ) → a < i → strcmp (d.files a) name ≤ 1
  before_place a h = let here = place.1 a h in omega arith

  after_place : (b : ℕ) → i ≤ b → b < d.count → strcmp name (d.files b) ≤ 1
  after_place b low high =
      let at = place.2 (omega arith) in
      let flip = strcmp_flip (d.files i) name in
      let (_, bound) =
        strcmp_trans name (d.files i) (d.files b) (omega arith) (sorted i b low high) in
      let step = sorted i b low high in omega arith

  entries_sorted : (a b : ℕ) → a ≤ b → b < d.count + 1 → strcmp (entry a) (entry b) ≤ 1
  entries_sorted a b low high =
      let fits = place.0 in
      ground (
        arith,
        strcmp_self name,
        before_place a,
        after_place (b - 1),
        sorted a b low,
        sorted a (b - 1),
        sorted (a - 1) (b - 1),
      )

  inserted-IsSorted : IsSorted (inserted d name i)
  inserted-IsSorted a b low high =
      rw (inserted-entry a (omega arith), inserted-entry b high) (entries_sorted a b low high)

  finds_new : is_debugged name (inserted d name i) ≡ 1
  finds_new =
      let fits = place.0 in
      let found : (inserted d name i).files i ≡ name = ground arith in
      (is_debugged_lem (inserted d name i) name inserted-IsSorted).0 i (omega arith) found

  finds_old : (k : ℕ) → k < d.count → is_debugged (d.files k) (inserted d name i) ≡ 1
  finds_old k h =
      let now = if ltb k i then k else k + 1 in
      let inside : now < d.count + 1 = ground arith in
      let moved : entry now ≡ d.files k = ground arith in
      (is_debugged_lem (inserted d name i) (d.files k) inserted-IsSorted).0 now inside
        (inserted-entry now inside ∙ moved)

-- With fewer than 64 files in a sorted list, `add_debug_to` leaves a sorted list with one entry
-- more, in which the search finds the new name and every name that was there.
pub add_debug_to_lem :
    (d : Debugged) (name : List ℕ)
    → IsSorted d
    → d.count < 64
    → (d' : Debugged) × (add_debug_to name d ≡ some d')
      × IsSorted d'
      × (d'.count ≡ d.count + 1)
      × (is_debugged name d' ≡ 1)
      × ((k : ℕ) → k < d.count → is_debugged (d.files k) d' ≡ 1)
unfolding add_debug_to
add_debug_to_lem d name sorted room =
    let i = position_loop max_files_number d name 0 in
    let place : IsPlace d name i =
      position_loop-IsPlace d name room max_files_number 0 (omega arith) (omega arith)
        (λ k h. absurd (omega arith)) in
    let fits = place.0 in
    let added : add_debug_to name d ≡ some (inserted d name i) = ground arith in
    (
      inserted d name i,
      added,
      inserted-IsSorted d name i sorted place,
      refl,
      finds_new d name i sorted place,
      finds_old d name i sorted place,
    )

module _ (d : Debugged) (name : List ℕ) (full : d.count ≡ 64) where
  past_all :
      (rounds i : ℕ)
      → rounds + i ≡ 64
      → ((k : ℕ) → k < 64 → strcmp (d.files k) name ≡ 0)
      → position_loop rounds d name i ≡ 64
  unfolding position_loop
  past_all zero i all before = omega arith
  past_all (suc rounds) i all before =
      ground (arith, before i, past_all rounds (i + 1) (omega arith) before)

  no_later :
      (rounds i k : ℕ)
      → rounds + i ≡ 64
      → i ≤ k
      → k < 64
      → 0 < strcmp (d.files k) name
      → position_loop rounds d name i ≤ k
  unfolding position_loop
  no_later zero i k all low high here = absurd (omega arith)
  no_later (suc rounds) i k all low high here = elim (Bool-cases (i == k)) [
    | inl same ↦
        let at : i ≡ k = ground arith in
        let stays : strcmp (d.files i) name ≡ strcmp (d.files k) name =
          ap (λ (n : ℕ). strcmp (d.files n) name) at in
        ground arith
    | inr other ↦
        let further : i + 1 ≤ k = ground arith in
        ground (arith, no_later rounds (i + 1) k (omega arith) further high here)
  ]

  -- With 64 files in the list, a name that goes behind all of them is dropped, and the list stays as it
  -- is; a name that goes before one of them is written past the array.
  pub add_debug_to-full :
      (((k : ℕ) → k < 64 → strcmp (d.files k) name ≡ 0) → add_debug_to name d ≡ some d)
      × ((k : ℕ) → k < 64 → 0 < strcmp (d.files k) name → add_debug_to name d ≡ none)
  unfolding add_debug_to
  add_debug_to-full = (
    λ before. ground (arith, past_all 64 0 (omega arith) before),
    λ k high here. ground (arith, no_later 64 0 k (omega arith) (omega arith) high here),
  )
