-- ===== src/Tests/Stops.antt =====
-- A run of the command c that ends at a breakpoint.
use progs.Prelude.{◌≡◌, refl, true, some, arith, []}
use progs.Memory.{memory_read_word, load}
use progs.Core.{ArmCore, ok, arm_read_word}
use progs.Core.Fetch.{arm_fetch_lem}
use progs.Exception.Reset.{restarted}
use progs.Instruction.{check_cond_failed, arm_step}
use progs.Instruction.Step.{step-failed}
use progs.Gdb.{Gdb, gdb_send_stop_reason}
use progs.Gdb.Handlers.{cont}
use progs.Gdb.Packet.{gdb_init_data}
use progs.Gdb.Continue.{Sees, Until, stops, goes_on, cont_lem}
use progs.Tests.{host, block, block-IsBytes, core}

-- A breakpoint at address 0, and the program counter at 4, where a word 0 stands.
abbrev at_four : ArmCore
at_four =
    let p = core (block true 0xE7 0xF0 0x00 0xF0) in record p { reg = record (p.reg) { cpsr = 4 } }

abbrev fetched : ArmCore
fetched = record at_four { cycle_count = 1; reg = record (at_four.reg) { cpsr = 8 } }

abbrev pub waiting : Gdb
waiting = gdb_init_data at_four

abbrev pub stopped : Gdb
stopped = record waiting { arm = restarted fetched; target_exception = 1 }

Sees-zero : Sees host waiting 0
unfolding arm_read_word memory_read_word load
Sees-zero = refl

Sees-breakpoint : Sees host stopped 0xE7F000F0
unfolding arm_read_word memory_read_word load
Sees-breakpoint = refl

-- The word 0 has the condition EQ, which fails.
zero_step : arm_step host at_four ≡ ok 1 (restarted fetched)
unfolding check_cond_failed
zero_step =
    step-failed host at_four fetched (some 0)
      (arm_fetch_lem host at_four (omega arith)
        (block-IsBytes true 0xE7 0xF0 0x00 0xF0 (omega arith) (omega arith) (omega arith)
          (omega arith))
        (omega arith) refl (omega arith))
      (omega arith)

pub Until-breakpoint : Until host stopped 1 waiting
Until-breakpoint =
    goes_on 0 1 (restarted fetched) Sees-zero refl zero_step (stops 0xE7F000F0 Sees-breakpoint refl)

cont_lem_example : cont host true 2 [] waiting ≡ gdb_send_stop_reason stopped
cont_lem_example = cont_lem host true stopped waiting 1 2 [] Until-breakpoint (omega arith)
