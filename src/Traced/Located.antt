-- ===== src/Traced/Located.antt =====
-- The macros of trace_location.h: an access between a location's start and its end.
use progs.Prelude.{
  ℕ, ◌+◌, ◌<◌, ◌≡◌, refl, ap, ◌∙◌, inl, inr, Bool-cases, true, false, arith, lt→ltb, ◌==◌, Option,
  some, if◌then◌else◌,
}
use progs.Prelude.Word.{u32, sub32}
use progs.Util.{Target}
use progs.Core
use progs.Core.{ArmCore, Run, ok, M}
use progs.Constants.{Name}
use progs.Trace.{Trace, trace_start_location, trace_end_location}
use progs.Traced
use progs.Traced.{Traced, T, pure, and_then, ◌>>=◌, of_run, of_trace, tracing, located}
use progs.Traced.Follows.{IsInside, IsPlaced, SameSettings, Follows}
use progs.Traced.Accesses
use progs.Traced.Accesses.{read_traced-Follows, write_traced-Follows}

-- As Follows, with room for one location.
pub record FollowsLocated {A : Type 0} (m : T A) (n : M A) : Type 0 where
  pub at :
      (p : ArmCore) (s : Trace)
      → IsPlaced s
      → (s' : Trace) × SameSettings s s' × (m p s ≡ of_run s' (n p))

abbrev one_more : Trace → Name → ℕ → Trace
one_more s file line =
    let top = u32 (s.location_stack_top + 1) in
    record s {
      location_stack_top = top;
      location_file_stack = λ i. if i == top then file else s.location_file_stack i;
      location_line_stack = λ i. if i == top then line else s.location_line_stack i;
    }

top_low : (s : Trace) → IsPlaced s → u32 (s.location_stack_top + 1) < 128
top_low s (inl h) = omega arith
top_low s (inr h) = omega arith

top_back :
    (s : Trace) → IsPlaced s → sub32 (u32 (s.location_stack_top + 1)) 1 ≡ s.location_stack_top
top_back s (inl h) = omega arith
top_back s (inr h) = omega arith

start_on :
    (file : Name) (line : ℕ) (s : Trace)
    → IsPlaced s
    → s.enabled ≡ true
    → trace_start_location file line s ≡ some (one_more s file line)
unfolding trace_start_location
start_on file line s placed on =
    rw (on, lt→ltb (u32 (s.location_stack_top + 1)) 128 (top_low s placed)) refl

start_off :
    (file : Name) (line : ℕ) (s : Trace)
    → s.enabled ≡ false
    → trace_start_location file line s ≡ some s
unfolding trace_start_location
start_off file line s off = rw off refl

end_on :
    (file : Name) (line : ℕ) (s s' : Trace)
    → IsPlaced s
    → s.enabled ≡ true
    → SameSettings (one_more s file line) s'
    → SameSettings s (trace_end_location s')
unfolding trace_end_location
end_on file line s s' placed on (top, enabled, flags) =
    rw (enabled, on) (ap (λ (x : ℕ). sub32 x 1) top ∙ top_back s placed, refl, flags)

end_off :
    (s s' : Trace) → s.enabled ≡ false → SameSettings s s' → SameSettings s (trace_end_location s')
unfolding trace_end_location
end_off s s' off (top, enabled, flags) = rw (enabled, off) (top, refl, flags)

module _ {A : Type 0} (file : Name) (line : ℕ) (m : T A) (n : M A) (h : Follows m n) where
  abbrev ending : A → T A
  ending a = tracing (λ p s. some (trace_end_location s)) >>= λ u. pure a

  ending_at :
      (s : Trace) (r : Run A) → and_then (of_run s r) ending ≡ of_run (trace_end_location s) r
  ending_at s (ok a q) = refl
  ending_at s Core.fault = refl

  -- From the state after the start to the state after the end.
  between :
      (p : ArmCore) (s s1 : Trace)
      → trace_start_location file line s ≡ some s1
      → IsInside s1
      → ((s2 : Trace) → SameSettings s1 s2 → SameSettings s (trace_end_location s2))
      → (s' : Trace) × SameSettings s s' × (located file line m p s ≡ of_run s' (n p))
  between p s s1 started inside back =
      let (s2, same, result) = h.at p s1 inside in
      (
        trace_end_location s2,
        back s2 same,
        ap (λ (o : Option Trace). and_then (of_trace p o) (λ u. m >>= ending)) started
            ∙ ap (λ (r : Traced A). and_then r ending) result
            ∙ ending_at s2 (n p),
      )

  pub located-FollowsLocated : FollowsLocated (located file line m) n
  located-FollowsLocated = record {
    at = λ p s placed. elim (Bool-cases s.enabled) [
      | inl on ↦
          between p s (one_more s file line) (start_on file line s placed on)
            (inl (top_low s placed)) (λ s2 same. end_on file line s s2 placed on same)
      | inr off ↦
          between p s s (start_off file line s off) (inside s placed)
            (λ s2 same. end_off s s2 off same)
    ];
  }
    where
      inside : (s : Trace) → IsPlaced s → IsInside s
      inside s (inl top) = inr top
      inside s (inr low) = inl (omega arith)

-- The accesses that trace_location.h wraps, each against the one of Core.
abbrev pub AccessesFollow : (t : Target) (file : Name) (line reg value old address : ℕ) → Type 0
AccessesFollow t file line reg value old address =
    FollowsLocated (located file line (Traced.arm_fetch t old)) (Core.arm_fetch t)
    × FollowsLocated (located file line (Traced.arm_read_register reg)) (Core.arm_read_register reg)
    × FollowsLocated (located file line (Traced.arm_read_usr_register reg))
        (Core.arm_read_usr_register reg)
    × FollowsLocated (located file line (Traced.arm_write_register reg value))
        (Core.arm_write_register reg value)
    × FollowsLocated (located file line (Traced.arm_write_usr_register reg value))
        (Core.arm_write_usr_register reg value)
    × FollowsLocated (located file line Traced.arm_read_cpsr) Core.arm_read_cpsr
    × FollowsLocated (located file line Traced.arm_read_spsr) Core.arm_read_spsr
    × FollowsLocated (located file line (Traced.arm_write_cpsr value)) (Core.arm_write_cpsr value)
    × FollowsLocated (located file line (Traced.arm_write_spsr value)) (Core.arm_write_spsr value)
    × FollowsLocated (located file line (Traced.arm_read_byte t old address))
        (Core.arm_read_byte t address)
    × FollowsLocated (located file line (Traced.arm_read_half t old address))
        (Core.arm_read_half t address)
    × FollowsLocated (located file line (Traced.arm_read_word t old address))
        (Core.arm_read_word t address)
    × FollowsLocated (located file line (Traced.arm_write_byte t address value))
        (Core.arm_write_byte t address value)
    × FollowsLocated (located file line (Traced.arm_write_half t address value))
        (Core.arm_write_half t address value)
    × FollowsLocated (located file line (Traced.arm_write_word t address value))
        (Core.arm_write_word t address value)

-- Every access of arm_core.c that trace_location.h wraps, with its trace calls and its location,
-- gives the value and leaves the core that it does without them, or leaves an array exactly when it
-- does without them. This holds whatever is traced, for registers of four bits and as long as there
-- is room for one more location, and the locations, the flags and the switch of the trace stay.
pub accesses_lem :
    (t : Target) (file : Name) (line reg value old address : ℕ)
    → reg < 16
    → AccessesFollow t file line reg value old address
unfolding Traced.arm_read_byte Traced.arm_read_half Traced.arm_read_word Traced.arm_write_byte
    Traced.arm_write_half Traced.arm_write_word
accesses_lem t file line reg value old address known = (
  located-FollowsLocated file line _ _ (Accesses.arm_fetch-Follows t old),
  located-FollowsLocated file line _ _ (Accesses.arm_read_register-Follows reg known),
  located-FollowsLocated file line _ _ (Accesses.arm_read_usr_register-Follows reg known),
  located-FollowsLocated file line _ _ (Accesses.arm_write_register-Follows reg known value),
  located-FollowsLocated file line _ _ (Accesses.arm_write_usr_register-Follows reg known value),
  located-FollowsLocated file line _ _ Accesses.arm_read_cpsr-Follows,
  located-FollowsLocated file line _ _ Accesses.arm_read_spsr-Follows,
  located-FollowsLocated file line _ _ (Accesses.arm_write_cpsr-Follows value),
  located-FollowsLocated file line _ _ (Accesses.arm_write_spsr-Follows value),
  located-FollowsLocated file line _ _
      (read_traced-Follows t 1 old (Core.arm_read_byte t address) address),
  located-FollowsLocated file line _ _
      (read_traced-Follows t 2 old (Core.arm_read_half t address) address),
  located-FollowsLocated file line _ _
      (read_traced-Follows t 4 old (Core.arm_read_word t address) address),
  located-FollowsLocated file line _ _
      (write_traced-Follows t 1 (Core.arm_write_byte t address value) address value),
  located-FollowsLocated file line _ _
      (write_traced-Follows t 2 (Core.arm_write_half t address value) address value),
  located-FollowsLocated file line _ _
      (write_traced-Follows t 4 (Core.arm_write_word t address value) address value),
)
