-- ===== src/Tests/Tracing.antt =====
-- Tests of arm_core.c with its trace calls.
use progs.Prelude.{◌≡◌, refl, true, arith, if◌then◌else◌, ◌==◌, some, [], ◌∷◌}
use progs.Trace.{
  initial, register_line, Trace, trace_register, trace_print_location, trace_start_location,
  trace_end_location,
}
use progs.Registers.{read_usr_register}
use progs.Constants.{arm_get_register_name, arm_get_mode_name}
use progs.Core
use progs.Traced.{finished, located, arm_read_usr_register}
use progs.Traced.Located.{AccessesFollow, accesses_lem}
use progs.Traced.State.{arm_print_state}
use progs.Traced.State.Print.{Prints, arm_print_state_lem, state_text}
use progs.Tests.{host, block, core}

-- The registers are traced, with positions.
abbrev tracing_all : Trace
tracing_all = record initial { trace_flags = 10 }

-- Register 3 of the test core holds 12, and is read at line 7 of the file f.
read_runs :
    located (102 ∷ []) 7 (arm_read_usr_register 3) (core (block true 1 2 3 4)) tracing_all
    ≡ finished 12 (core (block true 1 2 3 4)) (record tracing_all {
      location_file_stack = λ i. if i == 0 then 102 ∷ [] else [];
      location_line_stack = λ i. if i == 0 then 7 else 0;
      output =
          register_line (some (102 ∷ [], 7)) 0 1 (82 ∷ 48 ∷ 51 ∷ []) (some (85 ∷ 83 ∷ 82 ∷ [])) 12
          ∷ [];
    })
unfolding arm_read_usr_register Core.arm_read_usr_register read_usr_register trace_register
    trace_print_location trace_start_location trace_end_location arm_get_register_name
    arm_get_mode_name
read_runs = refl

accesses_lem_example : AccessesFollow host (102 ∷ []) 7 3 5 0 4
accesses_lem_example = accesses_lem host (102 ∷ []) 7 3 5 0 4 (omega arith)

arm_print_state_lem_example :
    Prints (core (block true 1 2 3 4)) arm_print_state (state_text (core (block true 1 2 3 4)))
arm_print_state_lem_example = arm_print_state_lem (core (block true 1 2 3 4))
