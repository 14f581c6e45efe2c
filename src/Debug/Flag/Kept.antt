-- ===== src/Debug/Flag/Kept.antt =====
-- What keeping the flag of debug.h changes.
use progs.Prelude.{
  ℕ, ◌≡◌, refl, ap, sym, ◌∙◌, true, false, Bool-cases, inl, inr, if◌then◌else◌, is_set, List, [],
  ◌∷◌,
}
use progs.Debug.{Debugged, is_debugged}
use progs.Debug.Flag.{Cache, unasked, Printed, cached_is_debugged, printed, all_printed}

abbrev pub outputs : List (Debugged × Printed) → List Printed
outputs [] = []
outputs ((d, what) ∷ calls) = what ∷ outputs calls

-- Every call finds the same answer in its list.
abbrev pub AllAnswer : (file : List ℕ) (answer : ℕ) → List (Debugged × Printed) → Type 0
AllAnswer file answer [] = Unit {0}
AllAnswer file answer ((d, what) ∷ calls) =
    (is_debugged file d ≡ answer) × AllAnswer file answer calls

-- The variables after the first call.
abbrev asked : ℕ → Cache
asked result = record { is_debugged_first = false; is_debugged_result = result }

module _ (file : List ℕ) where
  asked_lem :
      (result : ℕ) (calls : List (Debugged × Printed))
      → all_printed true file calls (asked result) ≡ (if is_set result then outputs calls else [])
  unfolding printed cached_is_debugged
  asked_lem result [] = elim (Bool-cases (is_set result)) [
    | inl on ↦ rw on refl
    | inr off ↦ rw off refl
  ]
  asked_lem result ((d, what) ∷ calls) = elim (Bool-cases (is_set result)) [
    | inl on ↦ rw on (ap (what ∷◌) (asked_lem result calls ∙ rw on refl))
    | inr off ↦ rw off (asked_lem result calls ∙ rw off refl)
  ]

  each_lem :
      (answer : ℕ) (calls : List (Debugged × Printed)) (cache : Cache)
      → AllAnswer file answer calls
      → all_printed false file calls cache ≡ (if is_set answer then outputs calls else [])
  unfolding printed
  each_lem answer [] cache all = elim (Bool-cases (is_set answer)) [
    | inl on ↦ rw on refl
    | inr off ↦ rw off refl
  ]
  each_lem answer ((d, what) ∷ calls) cache (here, all) = elim (Bool-cases (is_set answer)) [
    | inl on ↦ rw (here, on) (ap (what ∷◌) (each_lem answer calls cache all ∙ rw on refl))
    | inr off ↦ rw (here, off) (each_lem answer calls cache all ∙ rw off refl)
  ]

  -- With CACHE_DEBUG_FLAG the calls of the debug macros in one file all print, or none does, as the list of
  -- files decides at the first of them, whatever is added to it later.
  pub all_printed_lem :
      (d : Debugged) (what : Printed) (calls : List (Debugged × Printed))
      → all_printed true file ((d, what) ∷ calls) unasked
        ≡ (if is_set (is_debugged file d) then what ∷ outputs calls else [])
  unfolding printed cached_is_debugged
  all_printed_lem d what calls =
      let answer = is_debugged file d in
      elim (Bool-cases (is_set answer)) [
        | inl on ↦ rw on (ap (what ∷◌) (asked_lem answer calls ∙ rw on refl))
        | inr off ↦ rw off (asked_lem answer calls ∙ rw off refl)
      ]

  -- Where every call's list gives the answer of the first, the flag that is kept changes nothing.
  pub all_printed-same :
      (d : Debugged) (what : Printed) (calls : List (Debugged × Printed))
      → AllAnswer file (is_debugged file d) calls
      → all_printed true file ((d, what) ∷ calls) unasked
        ≡ all_printed false file ((d, what) ∷ calls) unasked
  all_printed-same d what calls all =
      all_printed_lem d what calls
      ∙ sym (each_lem (is_debugged file d) ((d, what) ∷ calls) unasked (refl, all))
