-- ===== src/Scanner/Upload.antt =====
-- Two packets of a debugger, from their characters on the connection: a program is stored and run.
use progs.Prelude.{ℕ, ◌-◌, ◌*◌, ◌%◌, ◌<◌, ◌≡◌, refl, ◌∙◌, Bool, true, arith, List, [], ◌∷◌, ◌++◌}
use progs.Prelude.Word.{word_size}
use progs.Prelude.Lists.{length}
use progs.Util.{Target}
use progs.Memory.Outcome.{IsAllocated, Fits}
use progs.Memory.Layout.{ReversesHalves}
use progs.Core.{ArmCore}
use progs.Core.Typed.{IsTyped}
use progs.Machine.Block.{AllPlain, IsBlock}
use progs.Gdb.{Gdb, framed}
use progs.Gdb.Text.{ok, s05}
use progs.Gdb.Commands.{answered}
use progs.Gdb.Continue.{is_breakpoint}
use progs.Gdb.Block.{ran, cont-run_block}
use progs.Gdb.Writing.{put_bytes, with_memory, escapes}
use progs.Gdb.MemoryTrip.{put_bytes-IsBytes, put_bytes-shape}
use progs.Gdb.Program.{
  program_bytes, AreWords, length-program_bytes, program_bytes-AllBytes, StandAt-program_bytes,
}
use progs.Gdb.Request.{Number, value, IsNumber, is_body-address_size, is_body-escapes}
use progs.Scanner.{yylex}
use progs.Scanner.Stepping.{at_once, alone, dispatched-c}
use progs.Scanner.Session.{write_request, acknowledged, write_done}

-- A program for the program counter of the core, and the request that stores it there.
abbrev pub IsProgram : Target → ArmCore → (address size : Number) → List ℕ → Type 0
IsProgram t p address size vs =
    IsNumber address
    × IsNumber size
    × (value size ≡ length (program_bytes p.mem.is_big_endian vs))
    × (p.reg.cpsr ≡ value address)
    × (value address % 4 ≡ 0)
    × (value address < p.mem.size)
    × Fits p.mem (value address) (4 * length vs)
    × AreWords vs

-- The core's memory holds bytes and its registers words, and bytes are accessed as they should be.
abbrev pub IsReady : Target → ArmCore → Type 0
IsReady t p =
    IsAllocated p.mem × IsTyped p × ReversesHalves t p.mem × (4 * p.mem.size < word_size - 8)

-- The state after a program is stored and acknowledged.
abbrev pub uploaded : (address : Number) → List ℕ → Gdb → Gdb
uploaded address vs g =
    let m = put_bytes g.arm.mem (value address) (program_bytes g.arm.mem.is_big_endian vs) in
    answered ok (with_memory m (acknowledged g))

module _ (t : Target) (target_big_endian : Bool) (fuel : ℕ) where
  pub uploaded-IsBlock :
      (address size : Number) (vs : List ℕ) (g : Gdb)
      → IsReady t g.arm
      → IsProgram t g.arm address size vs
      → IsBlock (uploaded address vs g).arm vs
  uploaded-IsBlock address size vs g (allocated, (registers, bytes), host, small)
        (is_address, is_size, as_many, here, aligned, below, fits, words) =
      let program = program_bytes g.arm.mem.is_big_endian vs in
      let (same_size, order) = put_bytes-shape g.arm.mem (value address) program in
      (
        rw same_size allocated,
        (
          registers,
          put_bytes-IsBytes g.arm.mem (value address) program bytes
              (program_bytes-AllBytes g.arm.mem.is_big_endian vs words),
        ),
        rw here aligned,
        omega arith,
        rw (same_size, here) fits,
        rw here (StandAt-program_bytes g.arm.mem (value address) vs words),
      )

  -- The packet X with a program, before any other packets.
  pub upload_done :
      (address size : Number) (vs : List ℕ) (g : Gdb) (rest : List ℕ)
      → IsReady t g.arm
      → IsProgram t g.arm address size vs
      → let program = program_bytes g.arm.mem.is_big_endian vs in
        yylex t target_big_endian fuel (framed (write_request address size program) ++ rest) [] g
        ≡ yylex t target_big_endian fuel rest [] (uploaded address vs g)
  upload_done address size vs g rest (allocated, (registers, bytes), host, small)
        (is_address, is_size, as_many, pc, aligned, below, fits, words) =
      let big = g.arm.mem.is_big_endian in
      let program = program_bytes big vs in
      at_once t target_big_endian fuel (write_request address size program) rest g
        (uploaded address vs g)
        (is_body-address_size address size (b':' ∷ escapes program) is_address is_size
          (is_body-escapes program))
        (write_done t target_big_endian fuel address size program g is_address is_size as_many
          allocated bytes host (omega arith) (rw (length-program_bytes big vs) fits)
          (program_bytes-AllBytes big vs words) below)

  -- A debugger sends a packet X with a program, for the address that the program counter holds, and then
  -- a packet c, each with its sum. The program is one data-processing instruction or more, each with the
  -- condition AL, no comparison and not into register 15, and a breakpoint behind them, in the byte
  -- order of the memory. The scanner acknowledges both packets and answers OK and then S05; the
  -- memory then holds the program, the registers hold what the results of the instructions make up, and
  -- the breakpoint was not executed. It goes on with what follows. The program fits the block, which
  -- is smaller than 2 ^ 32 - 8 bytes, its address is a multiple of 4 below the block's number of
  -- words, the host is little-endian or the memory big-endian, and there is more fuel than there are
  -- instructions.
  pub yylex-upload :
      (address size : Number) (mot : ℕ) (ws : List ℕ) (mark : ℕ) (g : Gdb) (rest : List ℕ)
      → IsReady t g.arm
      → IsProgram t g.arm address size ((mot ∷ ws) ++ (mark ∷ []))
      → AllPlain (mot ∷ ws)
      → is_breakpoint mark ≡ true
      → length (mot ∷ ws) < fuel
      → let vs = (mot ∷ ws) ++ (mark ∷ []) in
        let program = program_bytes g.arm.mem.is_big_endian vs in
        yylex t target_big_endian fuel
          (framed (write_request address size program) ++ (framed (b'c' ∷ []) ++ rest))
          []
          g
        ≡ yylex t target_big_endian fuel rest []
            (answered s05 (ran t (mot ∷ ws) (acknowledged (uploaded address vs g))))
  yylex-upload address size mot ws mark g rest ready is_program all here enough =
      let vs = (mot ∷ ws) ++ (mark ∷ []) in
      let h = uploaded address vs g in
      let ran_it =
        cont-run_block t target_big_endian mot ws mark fuel (alone b'c') (acknowledged h) all
          (uploaded-IsBlock address size vs g ready is_program) here enough in
      upload_done address size vs g (framed (b'c' ∷ []) ++ rest) ready is_program
      ∙ at_once t target_big_endian fuel (b'c' ∷ []) rest h
          (answered s05 (ran t (mot ∷ ws) (acknowledged h))) refl
          (dispatched-c t target_big_endian fuel h ∙ ran_it)
