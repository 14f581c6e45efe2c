-- ===== src/Simulator.antt =====
-- arm_simulator.c: the main program and its two listeners. What getopt_long finds, which files
-- fopen opens, and what comes on the two connections are arguments; sockets and threads are not
-- modelled. The lock makes a command and an exception one action each.
pub mod Options
pub mod Turns
pub mod Sound
pub mod LongOptions
use progs.Prelude.{
  ℕ, ◌%◌, Bool, true, false, Option, none, some, ◌==◌, if◌then◌else◌, List, [], ◌∷◌,
}
use progs.Prelude.Word.{u16}
use progs.Util.{Target}
use progs.Memory.{memory_create}
use progs.Core.{ArmCore, Run, ok, fault}
use progs.Exception.{arm_exception, arm_create}
use progs.Debug.{Debugged, add_debug_to}
use progs.Trace.{Trace, initial, trace_add}
use progs.Gdb.{G, Reply, replied, outside, pure, ◌>>=◌, ◌>>◌, on_core, emit, shut}
use progs.Gdb.Scan.{atoi}
use progs.Gdb.Packet.{gdb_init_data}
use progs.Scanner.{Token, action, handle_error}

-- What the options set; `trace_file` is `none` for stdout.
pub record Settings : Type 0 where
  pub gdb_port : ℕ
  pub irq_port : ℕ
  pub trace_file : Option (List ℕ)
  pub trace : Trace
  pub debugged : Debugged

abbrev pub defaults : Settings
defaults = record {
  gdb_port = 0;
  irq_port = 0;
  trace_file = none;
  trace = initial;
  debugged = record { files = λ i. []; count = 0 };
}

-- `exits` is `exit` with this status; `overrun` a write past `debugged_files`.
pub data Parsed : Type 0 where
  goes_on : Settings → Parsed
  exits : (status : ℕ) → Parsed
  overrun : Parsed

-- The letter that getopt_long gives, and `optarg`.
abbrev pub Opt : Type 0
Opt = ℕ × List ℕ

abbrev pub with_debugged : Settings → Option Debugged → Parsed
with_debugged s none = overrun
with_debugged s (some d) = goes_on (record s { debugged = d })

abbrev pub with_trace : Settings → (flag : ℕ) → Parsed
with_trace s flag = goes_on (record s { trace = trace_add flag s.trace })

-- MEMORY, REGISTERS, STATE and POSITION are 1, 2, 4 and 8. `opens` is whether fopen opens a file.
unfoldable pub option : (opens : List ℕ → Bool) → Opt → Settings → Parsed
option opens (opt, optarg) s =
    if opt == b'g'
    then goes_on (record s { gdb_port = u16 (atoi optarg) })
    else if opt == b'i'
    then goes_on (record s { irq_port = u16 (atoi optarg) })
    else if opt == b'h'
    then exits 0
    else if opt == b't'
    then (if opens optarg then goes_on (record s { trace_file = some optarg }) else exits 1)
    else if opt == b'r'
    then with_trace s 2
    else if opt == b'm'
    then with_trace s 1
    else if opt == b's'
    then with_trace s 4
    else if opt == b'p'
    then with_trace s 8
    else if opt == b'd'
    then with_debugged s (add_debug_to optarg s.debugged)
    else exits 1

abbrev pub then_parsed : Parsed → (Settings → Parsed) → Parsed
then_parsed (goes_on s) k = k s
then_parsed (exits status) k = exits status
then_parsed overrun k = overrun

-- The `while` of `main`.
unfoldable pub options : (opens : List ℕ → Bool) → List Opt → Settings → Parsed
options opens [] s = goes_on s
options opens (o ∷ os) s = then_parsed (option opens o s) (options opens os)

-- The memory and the core of `main`: `content` and `status` are what is in the fresh blocks.
-- `big` is whether BIG_ENDIAN_SIMULATOR is defined.
unfoldable pub started :
    (content content' : ℕ → ℕ) (status cycles : ℕ) (big : Bool) → Run (Unit {0})
started content content' status cycles big =
    arm_create content' status cycles (memory_create content 0x20000 big)

-- One action under the lock: a rule of the scanner, or a byte that the listener for interrupts
-- reads.
pub data Turn : Type 0 where
  scanned : Token → Turn
  interrupt : (irq : ℕ) → Turn

module _ (t : Target) (target_big_endian : Bool) (fuel : ℕ) where
  unfoldable pub turn : Turn → (buffer : List ℕ) → G (List ℕ)
  turn (scanned k) buffer = action t target_big_endian fuel k buffer
  turn (interrupt irq) buffer = do on_core (arm_exception (irq % 256)); pure buffer

  -- The turns of the two threads in the order in which they get the lock.
  unfoldable pub turns : List Turn → (buffer : List ℕ) → G (List ℕ)
  turns [] buffer = pure buffer
  turns (a ∷ rest) buffer = turn a buffer >>= turns rest

  -- `gdb_listener` and `irq_listener` until the debugger's connection ends.
  unfoldable pub gdb_listener : List Turn → ArmCore → Reply (Unit {0})
  gdb_listener all arm =
      (do buffer ← turns all []; handle_error buffer; emit shut) (gdb_init_data arm)

  abbrev pub on_started : Run (Unit {0}) → (ArmCore → Reply (Unit {0})) → Reply (Unit {0})
  on_started (ok u p) k = k p
  on_started fault k = outside

  -- `main` behind the options.
  unfoldable pub simulate :
      (content content' : ℕ → ℕ) (status cycles : ℕ) → List Turn → Reply (Unit {0})
  simulate content content' status cycles all =
      on_started (started content content' status cycles target_big_endian) (gdb_listener all)
