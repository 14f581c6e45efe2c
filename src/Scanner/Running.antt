-- ===== src/Scanner/Running.antt =====
-- The packets X and c of a debugger: a program is stored and runs to its first breakpoint.
use progs.Prelude.{ℕ, ◌≡◌, refl, ◌∙◌, Bool, some, List, [], ◌∷◌, ◌++◌}
use progs.Util.{Target}
use progs.Core.{ArmCore}
use progs.Gdb.{Gdb, framed}
use progs.Gdb.Commands.{answered}
use progs.Gdb.Program.{program_bytes}
use progs.Gdb.Request.{Number}
use progs.Gdb.Interpreter.{run_to_breakpoint, at_core, cont-run_to_breakpoint}
use progs.Scanner.{yylex}
use progs.Scanner.Session.{write_request, acknowledged}
use progs.Scanner.Stepping.{reason_text, stop_reason_lem, at_once, alone, dispatched-c}
use progs.Scanner.Upload.{IsProgram, IsReady, uploaded, uploaded-IsBlock, upload_done}

-- A debugger sends a packet X with a program, for the address that the program counter holds, and then
-- a packet c, each with its sum, and the interpreter, on the memory with the program in it, meets a
-- breakpoint within the fuel and covers all steps before it. Then the scanner acknowledges both
-- packets, answers OK, runs the program, and answers with the reason that belongs to the result of
-- the interpreter's last step, or to the last one before if there is none; the core is the interpreter's, at the breakpoint, and the scan goes on with what
-- follows. The program is in the byte order of the memory and fits the block, which is smaller than
-- 2 ^ 32 - 8 bytes; its address is a multiple of 4 below the block's number of words; the memory is
-- allocated, registers and bytes are of their types, and the host is little-endian or the memory
-- big-endian.
pub yylex-run_to_breakpoint :
    (t : Target) (target_big_endian : Bool) (fuel : ℕ) (address size : Number) (vs : List ℕ)
    (g : Gdb) (q : ArmCore) (result : ℕ) (rest : List ℕ)
    → IsReady t g.arm
    → IsProgram t g.arm address size vs
    → run_to_breakpoint t fuel g.target_exception (uploaded address vs g).arm ≡ some (q, result)
    → let program = program_bytes g.arm.mem.is_big_endian vs in
      yylex t target_big_endian fuel
        (framed (write_request address size program) ++ (framed (b'c' ∷ []) ++ rest))
        []
        g
      ≡ yylex t target_big_endian fuel rest []
          (answered (reason_text result) (at_core (acknowledged (uploaded address vs g)) q result))
yylex-run_to_breakpoint t target_big_endian fuel address size vs g q result rest ready is_program
      run =
    let h = acknowledged (uploaded address vs g) in
    let block = uploaded-IsBlock t target_big_endian fuel address size vs g ready is_program in
    let ran =
      cont-run_to_breakpoint t target_big_endian fuel (alone b'c') h q result block.0 block.1 run in
    upload_done t target_big_endian fuel address size vs g (framed (b'c' ∷ []) ++ rest) ready
      is_program
    ∙ at_once t target_big_endian fuel (b'c' ∷ []) rest (uploaded address vs g)
        (answered (reason_text result) (at_core h q result)) refl
        (dispatched-c t target_big_endian fuel (uploaded address vs g)
          ∙ ran
          ∙ stop_reason_lem (at_core h q result))
