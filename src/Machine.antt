-- ===== src/Machine.antt =====
-- arm_simulator.c: the two threads that work on one core. The debugger's commands step it and the
-- listener for interrupts raises exceptions; the lock makes a command and an exception one action
-- each, in any order. A command that takes several steps is more restricted than the runs here.
-- The commands that write registers or memory are no part of these runs.
pub mod Cycles
pub mod Types
pub mod Block
pub mod Reference
use progs.Prelude.{ℕ, zero, suc, ◌≡◌}
use progs.Util.{Target}
use progs.Core.{ArmCore, ok}
use progs.Exception.{arm_exception}
use progs.Instruction.{arm_step}

-- A run of `n` steps, and of any number of interrupts, from the core `p`.
pub data Runs (t : Target) (p : ArmCore) : ℕ → ArmCore → Type 0 where
  start : Runs t p 0 p
  stepped :
      {n : ℕ} {q' : ArmCore}
      → (q : ArmCore) (result : ℕ) → Runs t p n q
      → arm_step t q ≡ ok result q'
      → Runs t p (suc n) q'
  interrupted :
      {n : ℕ} {q' : ArmCore}
      → (q : ArmCore) (irq : ℕ) → Runs t p n q
      → arm_exception irq q ≡ ok tt q'
      → Runs t p n q'
