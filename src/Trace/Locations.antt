-- ===== src/Trace/Locations.antt =====
-- The two stacks of locations as one list, the innermost location first.
use progs.Prelude.{
  ℕ, zero, suc, ◌+◌, ◌<◌, ◌≤◌, ◌≡◌, refl, ap₂, true, arith, some, ◌==◌, if◌then◌else◌, List, [],
  ◌∷◌,
}
use progs.Prelude.Word.{u32, sub32}
use progs.Constants.{Name}
use progs.Trace.{Trace, trace_start_location, trace_end_location, trace_print_location, traces}

-- The `n` lowest entries, the highest first.
abbrev pub entries : (files : ℕ → Name) (lines : ℕ → ℕ) → ℕ → List (Name × ℕ)
entries files lines zero = []
entries files lines (suc n) = (files n, lines n) ∷ entries files lines n

abbrev pub depth : Trace → ℕ
depth s = u32 (s.location_stack_top + 1)

abbrev pub locations : Trace → List (Name × ℕ)
locations s = entries s.location_file_stack s.location_line_stack (depth s)

entries_above :
    (files : ℕ → Name) (lines : ℕ → ℕ) (top : ℕ) (file : Name) (line n : ℕ)
    → n ≤ top
    → entries (λ i. if i == top then file else files i) (λ i. if i == top then line else lines i) n
      ≡ entries files lines n
entries_above files lines top file line zero h = refl
entries_above files lines top file line (suc n) h =
    let file_kept : (if n == top then file else files n) ≡ files n = ground arith in
    let line_kept : (if n == top then line else lines n) ≡ lines n = ground arith in
    rw (file_kept, line_kept, entries_above files lines top file line n (omega arith)) refl

-- The state after a location is pushed on top of `n` others.
abbrev pub pushed : Trace → (file : Name) (line n : ℕ) → Trace
pushed s file line n = record s {
  location_stack_top = n;
  location_file_stack = λ i. if i == n then file else s.location_file_stack i;
  location_line_stack = λ i. if i == n then line else s.location_line_stack i;
}

module _ (s : Trace) (file : Name) (line : ℕ) (room : depth s < 128) where
  start_lem :
      s.enabled ≡ true → trace_start_location file line s ≡ some (pushed s file line (depth s))
  unfolding trace_start_location
  start_lem on = rw on (ground arith)

  locations-pushed : locations (pushed s file line (depth s)) ≡ (file, line) ∷ locations s
  locations-pushed =
      let n = depth s in
      let one_more : u32 (n + 1) ≡ suc n = omega arith in
      let new_file : (if n == n then file else s.location_file_stack n) ≡ file = ground arith in
      let new_line : (if n == n then line else s.location_line_stack n) ≡ line = ground arith in
      rw one_more (
        ap₂ (λ (x : Name × ℕ) (xs : List (Name × ℕ)). x ∷ xs)
          (ap₂ (λ (f : Name) (l : ℕ). (f, l)) new_file new_line)
          (entries_above s.location_file_stack s.location_line_stack n file line n (omega arith)))

  locations-popped :
      s.enabled ≡ true → locations (trace_end_location (pushed s file line (depth s))) ≡ locations s
  unfolding trace_end_location
  locations-popped on =
      let n = depth s in
      let back : u32 (sub32 n 1 + 1) ≡ n = omega arith in
      rw (on, back)
        (entries_above s.location_file_stack s.location_line_stack n file line n (omega arith))

  position-pushed :
      traces s 8 ≡ true
      → trace_print_location (pushed s file line (depth s)) ≡ some (some (file, line))
  unfolding trace_print_location
  position-pushed asked = rw asked (ground arith)

-- While the trace is enabled and fewer than 128 locations are open, `trace_start_location` opens
-- its location on top of the others, which is then the one printed if positions are asked for,
-- and `trace_end_location` takes it off again and leaves the others.
pub trace_location_lem :
    (s : Trace) (file : Name) (line : ℕ)
    → s.enabled ≡ true
    → depth s < 128
    → (s' : Trace) × (trace_start_location file line s ≡ some s')
      × (locations s' ≡ (file, line) ∷ locations s)
      × (traces s 8 ≡ true → trace_print_location s' ≡ some (some (file, line)))
      × (locations (trace_end_location s') ≡ locations s)
trace_location_lem s file line on room = (
  pushed s file line (depth s),
  start_lem s file line room on,
  locations-pushed s file line room,
  position-pushed s file line room,
  locations-popped s file line room on,
)
