-- ===== src/Tests/Threads.antt =====
-- A run of the machine: a branch, and then an interrupt that resets the core.
use progs.Prelude.{◌≡◌, refl, true, arith}
use progs.Core.{ArmCore, ok}
use progs.Exception.Reset.{restarted, arm_exception_lem}
use progs.Instruction.{arm_step}
use progs.Instruction.Branching.{arm_step-branch, jumped}
use progs.Machine.{Runs, start, stepped, interrupted}
use progs.Machine.Cycles.{Runs_lem}
use progs.Tests.{host, block, block-IsBytes, core}

-- b to the address 16
abbrev branching : ArmCore
branching = core (block true 0xEA 0x00 0x00 0x02)

abbrev branched_core : ArmCore
branched_core = jumped branching 0 0xEA000002

branching_step : arm_step host branching ≡ ok 0 branched_core
branching_step =
    arm_step-branch host branching (omega arith)
      (block-IsBytes true 0xEA 0x00 0x00 0x02 (omega arith) (omega arith) (omega arith)
        (omega arith))
      (omega arith) refl (omega arith) refl refl

one_step : Runs host branching 1 (restarted branched_core)
one_step =
    interrupted branched_core 1 (stepped branching 0 start branching_step)
      (arm_exception_lem 1 branched_core)

Runs_lem_example :
    ((restarted branched_core).cycle_count ≡ 1)
    × ((restarted branched_core).mem.size ≡ branching.mem.size)
    × ((restarted branched_core).mem.is_big_endian ≡ branching.mem.is_big_endian)
Runs_lem_example = Runs_lem host branching (restarted branched_core) 1 (omega arith) one_step
