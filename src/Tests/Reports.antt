-- ===== src/Tests/Reports.antt =====
-- Tests of debug.c, trace.c and the names of arm_constants.c.
use progs.Prelude.{
  ℕ, ◌≡◌, ◌≢◌, ◌<◌, refl, arith, true, false, none, some, is_set, if◌then◌else◌, List, [], ◌∷◌,
}
use progs.Debug.{Debugged, add_debug_to, is_debugged}
use progs.Debug.Flag.{printed, all_printed, raw, unasked}
use progs.Debug.Flag.Kept.{outputs, all_printed_lem}
use progs.Debug.{search_loop}
use progs.Debug.Compare.{strcmp, strcmp_self}
use progs.Debug.Search.{IsSorted, is_debugged_lem}
use progs.Debug.Insert.{add_debug_to_lem}
use progs.Trace.{
  Trace, initial, trace_start_location, trace_end_location, trace_print_location, traces,
}
use progs.Trace.Locations.{locations, trace_location_lem}
use progs.Trace.Accesses.{Reported}

abbrev file_a : List ℕ
file_a = 97 ∷ []

abbrev file_b : List ℕ
file_b = 98 ∷ []

-- One file, `b`.
abbrev one_file : Debugged
one_file = record { files = λ k. file_b; count = 1 }

one_file-IsSorted : IsSorted one_file
one_file-IsSorted i j low high = omega (arith, strcmp_self file_b)

is_debugged_lem_example :
    ((i : ℕ) → i < 1 → file_b ≡ file_b → is_debugged file_b one_file ≡ 1)
    × (((i : ℕ) → i < 1 → file_b ≢ file_b) → is_debugged file_b one_file ≡ 0)
is_debugged_lem_example = is_debugged_lem one_file file_b one_file-IsSorted

add_debug_to_lem_example :
    (d' : Debugged) × (add_debug_to file_a one_file ≡ some d')
    × IsSorted d'
    × (d'.count ≡ 2)
    × (is_debugged file_a d' ≡ 1)
    × ((k : ℕ) → k < 1 → is_debugged file_b d' ≡ 1)
add_debug_to_lem_example = add_debug_to_lem one_file file_a one_file-IsSorted (omega arith)

trace_location_lem_example :
    (s' : Trace) × (trace_start_location file_a 12 initial ≡ some s')
    × (locations s' ≡ (file_a, 12) ∷ [])
    × (traces initial 8 ≡ true → trace_print_location s' ≡ some (some (file_a, 12)))
    × (locations (trace_end_location s') ≡ [])
trace_location_lem_example = trace_location_lem initial file_a 12 refl (omega arith)

abbrev tracing : Trace
tracing = record initial { trace_flags = 1 }

abbrev access : ℕ → Reported
access a = record { cycle = 1; type = 1; size = 4; cause = 0; address = a; value = 0 }

unreported_position : trace_print_location tracing ≡ some none
unfolding trace_print_location
unreported_position = refl

-- The file is added after the first call.
abbrev no_files : Debugged
no_files = record { files = λ k. []; count = 0 }

all_printed_lem_example :
    all_printed true file_b ((no_files, raw file_a) ∷ (one_file, raw file_a) ∷ []) unasked ≡ (
      if is_set (is_debugged file_b no_files)
      then raw file_a ∷ outputs ((one_file, raw file_a) ∷ [])
      else [])
all_printed_lem_example = all_printed_lem file_b no_files (raw file_a) ((one_file, raw file_a) ∷ [])

-- Without the kept flag the second call prints.
second_prints :
    all_printed false file_b ((no_files, raw file_a) ∷ (one_file, raw file_a) ∷ []) unasked
    ≡ raw file_a ∷ []
unfolding printed is_debugged search_loop strcmp
second_prints = refl
