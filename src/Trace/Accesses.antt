-- ===== src/Trace/Accesses.antt =====
-- Which memory accesses are reported as sequential.
use progs.Prelude.{
  ℕ, ◌+◌, ◌≡◌, refl, ap, ◌∙◌, true, Option, none, some, of_bool, ◌==◌, [], ◌∷◌, ◌++◌,
}
use progs.Prelude.Word.{u32}
use progs.Trace.{Trace, Report, memory_line, trace_memory, trace_print_location, traces, Position}

-- A traced access.
pub record Reported : Type 0 where
  pub cycle : ℕ
  pub type : ℕ
  pub size : ℕ
  pub cause : ℕ
  pub address : ℕ
  pub value : ℕ

abbrev pub trace_access : Reported → Trace → Option Trace
trace_access x s = trace_memory x.cycle x.type x.size x.cause x.address x.value s

abbrev pub line_of : Position → (seq : ℕ) → Reported → Report
line_of position seq x = memory_line position x.cycle seq x.type x.size x.cause x.address x.value

-- The state after the report of an access.
abbrev pub after_report : Position → Reported → Trace → Trace
after_report position x s = record s {
  last_address = x.address;
  output = s.output ++ (line_of position (of_bool (x.address == u32 (s.last_address + 4))) x ∷ []);
}

trace_access_lem :
    (x : Reported) (s : Trace) (position : Position)
    → traces s 1 ≡ true
    → trace_print_location s ≡ some position
    → trace_access x s ≡ some (after_report position x s)
unfolding trace_memory
trace_access_lem x s position on located = rw (on, located) refl

same_location :
    (position : Position) (x : Reported) (s : Trace)
    → trace_print_location (after_report position x s) ≡ trace_print_location s
unfolding trace_print_location
same_location position x s = refl

abbrev pub then_access : Option Trace → Reported → Option Trace
then_access none y = none
then_access (some s) y = trace_access y s

-- While memory accesses are traced and the location can be read: of two accesses in a row, the second is marked sequential exactly when its address is
-- 4 past that of the first, modulo 2 ^ 32; both are reported, in their order.
pub trace_memory_lem :
    (x y : Reported) (s : Trace) (position : Position)
    → traces s 1 ≡ true
    → trace_print_location s ≡ some position
    → (s' : Trace) × (then_access (trace_access x s) y ≡ some s')
      × (s'.output
          ≡ (s.output
              ++ (line_of position (of_bool (x.address == u32 (s.last_address + 4))) x ∷ []))
            ++ (line_of position (of_bool (y.address == u32 (x.address + 4))) y ∷ []))
trace_memory_lem x y s position on located = (
  after_report position y (after_report position x s),
  ap (λ (r : Option Trace). then_access r y) (trace_access_lem x s position on located)
      ∙ trace_access_lem y (after_report position x s) position on
          (same_location position x s ∙ located),
  refl,
)
