-- ===== src/Traced/Accesses.antt =====
-- Every access of arm_core.c with its trace, and the location that trace_location.h puts around it,
-- does to the core what it does without.
use progs.Prelude.{
  ℕ, ◌+◌, ◌<◌, ◌≡◌, refl, ap, inl, inr, Bool-cases, Bool, true, false, arith, ltb, lt→ltb, Option,
  none, some, if◌then◌else◌,
}
use progs.Prelude.Word.{u32, sub32}
use progs.Core
use progs.Core.{ArmCore, Run, ok, M}
use progs.Constants.{arm_get_mode_name, arm_get_register_name}
use progs.Trace.{Trace, traces, trace_memory, trace_register, trace_print_location, Position}
use progs.Traced
use progs.LoadStore.{or_unassigned}
use progs.Core.{next_cycle}
use progs.Util.{Target}
use progs.Traced.{read_traced, write_traced}
use progs.Traced.{
  Traced, finished, outside, T, pure, and_then, ◌>>=◌, ◌>>◌, of_run, untraced, of_trace, tracing,
  located,
}
use progs.Traced.Follows.{
  IsInside, SameSettings, Follows, Reports, bind-Follows, untraced-Follows, pure-Follows,
  report_then, without_pure, traced_access,
}

both_some :
    (b : Bool) (x y : Position)
    → (position : Position) × ((if b then some x else some y) ≡ some position)
both_some true x y = (x, refl)
both_some false x y = (y, refl)

-- The position of a report is found inside the arrays, if there is one.
print_lem :
    (s : Trace) → IsInside s → (position : Position) × (trace_print_location s ≡ some position)
unfolding trace_print_location
print_lem s (inl h) = rw (lt→ltb s.location_stack_top 128 h) (both_some _ _ _)
print_lem s (inr h) = elim (Bool-cases (traces s 8)) [
  | inl k ↦
      let none_yet : ltb s.location_stack_top 2147483648 ≡ false = ground arith in
      rw (k, none_yet) (none, refl)
  | inr k ↦ rw k (none, refl)
]

module _ (cycle type : ℕ) (reg mode value : ℕ) (known : reg < 18) (moded : mode < 32) where
  register_reports :
      (s : Trace)
      → IsInside s
      → (s' : Trace) × SameSettings s s' × (trace_register cycle type reg mode value s ≡ some s')
  unfolding trace_register arm_get_register_name arm_get_mode_name
  register_reports s inside =
      let (position, found) = print_lem s inside in
      elim (Bool-cases (traces s 2)) [
        | inl on ↦
            rw (on, found, lt→ltb reg 18 known, lt→ltb mode 32 moded) (_, (refl, refl, refl), refl)
        | inr off ↦ rw off (s, (refl, refl, refl), refl)
      ]

memory_reports :
    (cycle type size cause address value : ℕ) (s : Trace)
    → IsInside s
    → (s' : Trace) × SameSettings s s'
      × (trace_memory cycle type size cause address value s ≡ some s')
unfolding trace_memory
memory_reports cycle type size cause address value s inside =
    let (position, found) = print_lem s inside in
    elim (Bool-cases (traces s 1)) [
      | inl on ↦ rw (on, found) (_, (refl, refl, refl), refl)
      | inr off ↦ rw off (s, (refl, refl, refl), refl)
    ]

-- A write, with its trace call behind it.
written_access :
    (n : M (Unit {0})) (f : ArmCore → Trace → Option Trace)
    → Reports f
    → Follows (untraced n >>= λ u. tracing f) n
written_access n f reports = without_pure _ n (
    bind-Follows (untraced n) n (λ u. tracing f) Core.pure (untraced-Follows n)
      (λ u. record {
        at = λ p s inside.
            let (s', same, result) = reports p s inside in (s', same, ap (of_trace p) result);
      }))

module _ (reg : ℕ) (known : reg < 16) where
  pub arm_read_register-Follows :
      Follows (Traced.arm_read_register reg) (Core.arm_read_register reg)
  unfolding Traced.arm_read_register
  arm_read_register-Follows =
      traced_access (Core.arm_read_register reg) _
        (λ value p s. register_reports p.cycle_count 1 reg 0 value (omega arith) (omega arith) s)

  pub arm_read_usr_register-Follows :
      Follows (Traced.arm_read_usr_register reg) (Core.arm_read_usr_register reg)
  unfolding Traced.arm_read_usr_register
  arm_read_usr_register-Follows =
      traced_access (Core.arm_read_usr_register reg) _
        (λ value p s. register_reports p.cycle_count 1 reg 16 value (omega arith) (omega arith) s)

  module _ (value : ℕ) where
    pub arm_write_register-Follows :
        Follows (Traced.arm_write_register reg value) (Core.arm_write_register reg value)
    unfolding Traced.arm_write_register
    arm_write_register-Follows =
        written_access (Core.arm_write_register reg value) _
          (λ p s. register_reports p.cycle_count 0 reg 0 value (omega arith) (omega arith) s)

    pub arm_write_usr_register-Follows :
        Follows (Traced.arm_write_usr_register reg value) (Core.arm_write_usr_register reg value)
    unfolding Traced.arm_write_usr_register
    arm_write_usr_register-Follows =
        written_access (Core.arm_write_usr_register reg value) _
          (λ p s. register_reports p.cycle_count 0 reg 16 value (omega arith) (omega arith) s)

pub arm_read_cpsr-Follows : Follows Traced.arm_read_cpsr Core.arm_read_cpsr
unfolding Traced.arm_read_cpsr
arm_read_cpsr-Follows =
    traced_access Core.arm_read_cpsr _
      (λ value p s. register_reports p.cycle_count 1 16 0 value (omega arith) (omega arith) s)

pub arm_read_spsr-Follows : Follows Traced.arm_read_spsr Core.arm_read_spsr
unfolding Traced.arm_read_spsr
arm_read_spsr-Follows =
    traced_access Core.arm_read_spsr _
      (λ value p s. register_reports p.cycle_count 1 17 0 value (omega arith) (omega arith) s)

pub arm_write_cpsr-Follows :
    (value : ℕ) → Follows (Traced.arm_write_cpsr value) (Core.arm_write_cpsr value)
unfolding Traced.arm_write_cpsr
arm_write_cpsr-Follows value =
    written_access (Core.arm_write_cpsr value) _
      (λ p s. register_reports p.cycle_count 0 16 0 value (omega arith) (omega arith) s)

pub arm_write_spsr-Follows :
    (value : ℕ) → Follows (Traced.arm_write_spsr value) (Core.arm_write_spsr value)
unfolding Traced.arm_write_spsr
arm_write_spsr-Follows value =
    written_access (Core.arm_write_spsr value) _
      (λ p s. register_reports p.cycle_count 0 17 0 value (omega arith) (omega arith) s)

module _ (t : Target) where
  pub read_traced-Follows :
      (size old : ℕ) (access : M (Option ℕ)) (address : ℕ)
      → Follows (read_traced t size old access address) access
  read_traced-Follows size old access address =
      traced_access access _
        (λ result p s. memory_reports p.cycle_count 1 size 0 address (or_unassigned result old) s)

  pub write_traced-Follows :
      (size : ℕ) (access : M ℕ) (address value : ℕ)
      → Follows (write_traced t size access address value) access
  write_traced-Follows size access address value =
      traced_access access _ (λ result p s. memory_reports p.cycle_count 0 size 0 address value s)

  pub arm_fetch-Follows : (old : ℕ) → Follows (Traced.arm_fetch t old) (Core.arm_fetch t)
  unfolding Traced.arm_fetch Core.arm_fetch
  arm_fetch-Follows old = bind-Follows _ _ _ _ (untraced-Follows next_cycle) (λ u.
      bind-Follows _ _ _ _ (arm_read_register-Follows 15 (omega arith)) (λ r15.
        let address = sub32 r15 4 in
        bind-Follows _ _ _ _ (untraced-Follows (Core.arm_read_word t address)) (λ result.
          report_then _ _ _
            (λ p s. memory_reports p.cycle_count 1 4 1 address (or_unassigned result old) s)
            (bind-Follows _ _ _ _ (arm_write_register-Follows 15 (omega arith) (u32 (address + 4)))
              (λ u'. pure-Follows result)))))
