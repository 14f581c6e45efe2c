-- ===== src/Debug.antt =====
-- debug.c: the sorted list of the files whose debug output is on, and its binary search.
pub mod Compare
pub mod Insert
pub mod Flag
pub mod Search
use progs.Prelude.{
  ℕ, zero, suc, ◌+◌, ◌-◌, ◌/◌, Bool, true, false, ◌&&◌, Option, none, some, ltb, ◌==◌,
  if◌then◌else◌, List, [], ◌∷◌,
}
use progs.Debug.Compare.{strcmp}

-- `debugged_files` and `nb_debugged_files`; a name is the characters before its NUL.
pub record Debugged : Type 0 where
  pub files : ℕ → List ℕ
  pub count : ℕ

abbrev pub max_files_number : ℕ
max_files_number = 64

-- The `while` of `add_debug_to`, with the rounds left: every round adds 1 to `i`.
unfoldable pub position_loop : (rounds : ℕ) → Debugged → (name : List ℕ) → (i : ℕ) → ℕ
position_loop zero d name i = i
position_loop (suc rounds) d name i =
    let next = position_loop rounds d name (i + 1) in
    if ltb i d.count && ltb i max_files_number && strcmp (d.files i) name == 0 then next else i

-- `for (j = nb_debugged_files; j > i; j--)`, with the rounds left.
abbrev pub shift_loop : (rounds j : ℕ) → (ℕ → List ℕ) → ℕ → List ℕ
shift_loop zero j files = files
shift_loop (suc rounds) j files =
    shift_loop rounds (j - 1) (λ k. if k == j then files (j - 1) else files k)

-- `none` is a write past the array: entry 64, when it is full and the name goes before its end.
unfoldable pub add_debug_to : (name : List ℕ) → Debugged → Option Debugged
add_debug_to name d =
    let i = position_loop max_files_number d name 0 in
    let files = shift_loop (d.count - i) d.count d.files in
    if ltb i max_files_number
    then (if ltb d.count max_files_number
        then some (record { files = λ k. if k == i then name else files k; count = d.count + 1 })
        else none)
    else some d

-- The `while` of `__is_debugged` and the test after it. `past` is `to + 1`, as `to` may be -1; the
-- interval shrinks in every round, so `nb_debugged_files` rounds are enough.
unfoldable pub search_loop : (rounds : ℕ) → Debugged → (name : List ℕ) → (from past : ℕ) → ℕ
search_loop zero d name from past = 0
search_loop (suc rounds) d name from past =
    let middle = (from + past - 1) / 2 in
    let result = strcmp (d.files middle) name in
    let above = search_loop rounds d name (middle + 1) past in
    let below = search_loop rounds d name from middle in
    if ltb (from + 1) past
    then (if result == 0 then above else if result == 2 then below else 1)
    else if from + 1 == past && strcmp (d.files from) name == 1
    then 1
    else 0

unfoldable pub is_debugged : (name : List ℕ) → Debugged → ℕ
unfolding search_loop
is_debugged name d = search_loop (d.count + 1) d name 0 d.count
