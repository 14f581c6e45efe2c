-- ===== src/Tests/Stepping.antt =====
-- One packet s, or a packet c, at a word before a breakpoint.
use progs.Prelude.{◌≡◌, arith, [], ◌∷◌, ◌++◌, true}
use progs.Gdb.{Gdb, framed}
use progs.Scanner.{yylex}
use progs.Scanner.Stepping.{Stopped, step_packets, stepping_lem}
use progs.Tests.{host}
use progs.Tests.Stops.{waiting, stopped, Until-breakpoint}

stepping_lem_example :
    (h k : Gdb) × Stopped stopped h
    × Stopped stopped k
    × (yylex host true 2 (step_packets 1 []) [] waiting ≡ yylex host true 2 [] [] h)
    × (yylex host true 2 (framed (b'c' ∷ []) ++ []) [] waiting ≡ yylex host true 2 [] [] k)
stepping_lem_example = stepping_lem host true 2 1 [] waiting stopped Until-breakpoint (omega arith)
