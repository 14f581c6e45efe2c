-- ===== src/Lib.antt =====
-- The ARM simulator under arm_simulator-1.4: the processor that arm_simulator.c steps. A step
-- (arm_instruction.c) fetches the word at the program counter through the core (arm_core.c),
-- which reads the memory (memory.c) and the register file (registers.c); tests the condition;
-- hands the word to data processing, load and store, or branch; and gives the result, when it is
-- not 0, to arm_exception.c.
--
-- Files, each named for the C file it models, with the functions under their C names in
-- lower case:
--   Prelude         shared names, C's tests, 32-bit words (Word), bits and masks (Bits, Masks),
--                   signed numbers (Int)
--   Util            util.h, util.c: bit macros, asr, ror
--   Memory          memory.c: `struct memory_data` and its six accesses
--   Registers       registers.c: `struct registers_data`
--   Core            arm_core.c: `struct arm_core_data`, and the monad that the rest is written in
--   Traced          arm_core.c with its trace calls, the macros of trace_location.h (Located), and
--                   arm_print_state (State)
--   Exception       arm_exception.c
--   DataProcessing  arm_data_processing.c
--   LoadStore       arm_load_store.c: words and bytes (Addressing, Word, Byte), halves (Half), several
--                   registers (Multiple)
--   Branch          arm_branch_other.c
--   Instruction     arm_instruction.c: conditions, the shifter operand (Shifter, Operand), and whole
--                   steps that execute one instruction (Branching, DataStep, SingleStep,
--                   TransferStep), or two (TwoSteps, Return), or any (Outcome)
--   Machine         arm_simulator.c: steps and interrupts in any order (Cycles, Types), straight
--                   programs (Block), and an interpreter that programs are compared with (Reference)
--   Gdb             gdb_protocol.c: hexadecimal words and numbers (Scan, Words, Digits), commands
--                   (Handlers, Commands, Reading, Writing, Continue, General, RegisterTrip,
--                   MemoryTrip, Block, Program, Interpreter), what they all keep (Frame, Keeps),
--                   packets (Packet, Request)
--   Scanner         scanner.l: the lexer (Tokens, Framing), the buffer of errors (Noise), packets
--                   after what is no packet (Resync), sessions of several packets (Session, Upload,
--                   Stepping, Running)
--   MemoryTest      memory_test.c
--   Simulator       arm_simulator.c: options (LongOptions, Options), listeners (Turns), runs (Sound)
--   Trace           trace.c
--   Debug           debug.c, and the flag that the macros of debug.h keep (Flag)
--   Constants       the name tables of arm_constants.c, and send_irq.c's search in them
--   SendIrq         send_irq.c
--   Tests           runs of the definitions at fixed inputs, and the theorems applied to them
-- A child module proves what its name says of its parent.
--
-- How the code is modelled:
-- * An unsigned word of w bits is a natural number, and every assignment to one takes `% 2 ^ w`
--   where the C type does. An `int` is the word with the same bits.
-- * A function on the core is a state passing function, `M A = ArmCore → Run A`. `fault` is an
--   access outside the register file or the memory block, where C has no defined behaviour, and
--   ends the run. A read that memory.c refuses returns -1 and leaves the caller's variable alone.
-- * `regs` has 15 entries and is followed by `cpsr`: index 15 is modelled as `cpsr`, which is what
--   the layout of the struct gives.
-- * Target holds what the C code leaves to the machine: the byte order that is_big_endian finds,
--   the shifts by the full width or more (which asr, ror and the shifter reach), and the values
--   of variables that are read before they are assigned, one for each cycle.
-- * Loops are structural on the number of rounds left. The C code fixes that number, or, for the
--   loops of debug.c, bounds it by the number of files. The command c of gdb_protocol.c alone runs
--   until it meets a breakpoint: its loop has fuel, and ends as `running` when that is used up.
-- * sscanf, strtoul, strcmp and the like follow ISO C, with a 64-bit unsigned long.
-- * The lock of arm_simulator.c is held around every command and every interrupt, so a run of the
--   two threads is a list of turns, each a rule of the scanner or an interrupt.
-- * C leaves open in which order the two sides of a sum are computed; in the macros of
--   trace_location.h the access is taken to come before END_LOCATION.
--
-- Not modelled: the sockets and threads of arm_simulator.c and send_irq.c, flex's buffers, csapp.c (a
-- library copy), memory_2.c (not built), arm.c (an empty function), the text of the trace and debug
-- output, and the calls of trace and debug functions from the instructions and the protocol, which
-- change nothing that these read.
pub mod Prelude
pub mod Util
pub mod Memory
pub mod Registers
pub mod Core
pub mod Exception
pub mod DataProcessing
pub mod Branch
pub mod LoadStore
pub mod Instruction
pub mod Machine
pub mod Debug
pub mod Gdb
pub mod Scanner
pub mod MemoryTest
pub mod Constants
pub mod Trace
pub mod Traced
pub mod Simulator
pub mod SendIrq
mod Tests
