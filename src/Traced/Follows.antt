-- ===== src/Traced/Follows.antt =====
-- What it means that a traced function of arm_core.c does what it does without the trace.
use progs.Prelude.{◌+◌, ◌<◌, ◌≡◌, refl, ap, ◌∙◌, ◌⊎◌, inl, inr, Option, some}
use progs.Core
use progs.Core.{ArmCore, Run, ok, M}
use progs.Trace.{Trace}
use progs.Traced.{Traced, T, pure, and_then, ◌>>=◌, of_run, untraced, of_trace, tracing}

-- The locations are within their arrays.
abbrev pub IsInside : Trace → Type 0
IsInside s = (s.location_stack_top < 128) ⊎ (s.location_stack_top ≡ 0xFFFFFFFF)

-- There is no location, or the last one has room for one more above it.
abbrev pub IsPlaced : Trace → Type 0
IsPlaced s = (s.location_stack_top ≡ 0xFFFFFFFF) ⊎ (s.location_stack_top + 1 < 128)

abbrev pub SameSettings : Trace → Trace → Type 0
SameSettings s s' =
    (s'.location_stack_top ≡ s.location_stack_top)
    × (s'.enabled ≡ s.enabled)
    × (s'.trace_flags ≡ s.trace_flags)

-- The traced `m` leaves the core and gives the value that `n` does, or leaves an array as `n` does,
-- and keeps the settings of the trace and the number of its locations.
pub record Follows {A : Type 0} (m : T A) (n : M A) : Type 0 where
  pub at :
      (p : ArmCore) (s : Trace)
      → IsInside s
      → (s' : Trace) × SameSettings s s' × (m p s ≡ of_run s' (n p))

-- A trace call that stays within its arrays.
abbrev pub Reports : (ArmCore → Trace → Option Trace) → Type 0
Reports f =
    (p : ArmCore) (s : Trace) → IsInside s → (s' : Trace) × SameSettings s s' × (f p s ≡ some s')

pub IsInside-after : (s s' : Trace) → SameSettings s s' → IsInside s → IsInside s'
IsInside-after s s' (top, on, flags) (inl h) = inl (rw top h)
IsInside-after s s' (top, on, flags) (inr h) = inr (top ∙ h)

pub same_after : (s s' s'' : Trace) → SameSettings s s' → SameSettings s' s'' → SameSettings s s''
same_after s s' s'' (a, b, c) (a', b', c') = (a' ∙ a, b' ∙ b, c' ∙ c)

module _ {A B : Type 0} where
  then_at :
      (p : ArmCore) (s : Trace) (r : Run A) (k : A → T B) (l : A → M B)
      → ((a : A) → Follows (k a) (l a))
      → IsInside s
      → (s' : Trace) × SameSettings s s' × (and_then (of_run s r) k ≡ of_run s' (Core.and_then r l))
  then_at p s (ok a q) k l h inside = (h a).at q s inside
  then_at p s Core.fault k l h inside = (s, (refl, refl, refl), refl)

  pub bind-Follows :
      (m : T A) (n : M A) (k : A → T B) (l : A → M B)
      → Follows m n
      → ((a : A) → Follows (k a) (l a))
      → Follows (m >>= k) (Core.◌>>=◌ n l)
  bind-Follows m n k l h next = record {
    at = λ p s inside.
        let (s', same, result) = h.at p s inside in
        let (s'', same', result') = then_at p s' (n p) k l next (IsInside-after s s' same inside) in
        (s'', same_after s s' s'' same same', ap (λ (r : Traced A). and_then r k) result ∙ result');
  }

module _ {A : Type 0} where
  pub untraced-Follows : (n : M A) → Follows (untraced n) n
  untraced-Follows n = record { at = λ p s inside. (s, (refl, refl, refl), refl) }

  pub pure-Follows : (a : A) → Follows (pure a) (Core.pure a)
  pure-Follows a = record { at = λ p s inside. (s, (refl, refl, refl), refl) }

  -- A trace call first.
  pub report_then :
      (f : ArmCore → Trace → Option Trace) (m : T A) (n : M A)
      → Reports f
      → Follows m n
      → Follows (tracing f >>= λ u. m) n
  report_then f m n reports h = record {
    at = λ p s inside.
        let (s', same, result) = reports p s inside in
        let (s'', same', result') = h.at p s' (IsInside-after s s' same inside) in
        (
          s'',
          same_after s s' s'' same same',
          ap (λ (o : Option Trace). and_then (of_trace p o) (λ u. m)) result ∙ result',
        );
  }

  unit_at : (r : Run A) → Core.and_then r Core.pure ≡ r
  unit_at (ok a q) = refl
  unit_at Core.fault = refl

  pub without_pure : (m : T A) (n : M A) → Follows m (Core.◌>>=◌ n Core.pure) → Follows m n
  without_pure m n h = record {
    at = λ p s inside.
        let (s', same, result) = h.at p s inside in
        (s', same, result ∙ ap (of_run s') (unit_at (n p)));
  }

  -- An access with its trace call behind it.
  pub traced_access :
      (n : M A) (f : A → ArmCore → Trace → Option Trace)
      → ((a : A) → Reports (f a))
      → Follows (untraced n >>= λ a. tracing (f a) >>= λ u. pure a) n
  traced_access n f reports = without_pure _ n (
      bind-Follows (untraced n) n _ Core.pure (untraced-Follows n)
        (λ a. report_then (f a) (pure a) (Core.pure a) (reports a) (pure-Follows a)))
