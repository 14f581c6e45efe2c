-- ===== src/Tests/Programs.antt =====
-- Tests of the main program of arm_simulator.c.
use progs.Prelude.{◌≡◌, refl, true, false, List, [], ◌∷◌}
use progs.Gdb.{framed}
use progs.Gdb.Frame.{EndsSound}
use progs.Trace.{trace_add}
use progs.Scanner.{packet}
use progs.Simulator.{Opt, defaults, exits, option, options, Turn, scanned, interrupt, simulate}
use progs.Simulator.Options.{After}
use progs.Simulator.Options.All.{options_lem}
use progs.Simulator.Sound.{simulate_lem}
use progs.Tests.{host}

-- -g 1 -m -g 99999, with the trace in the file t
abbrev asked : List Opt
asked = (103, 49 ∷ []) ∷ (109, []) ∷ (103, 57 ∷ 57 ∷ 57 ∷ 57 ∷ 57 ∷ []) ∷ (116, 116 ∷ []) ∷ []

options_lem_example : After (λ name. true) asked defaults (options (λ name. true) asked defaults)
options_lem_example = options_lem (λ name. true) asked defaults

-- No file opens.
options_run : options (λ name. false) asked defaults ≡ exits 1
unfolding options option trace_add
options_run = refl

-- A reset arrives after the packet ?.
abbrev two_turns : List Turn
two_turns = interrupt 1 ∷ scanned (packet (framed (63 ∷ []))) ∷ []

simulate_lem_example : EndsSound 0x20000 true (simulate host true 0 (λ i. 0) (λ i. 0) 0 0 two_turns)
simulate_lem_example = simulate_lem host true 0 (λ i. 0) (λ i. 0) 0 0 two_turns
