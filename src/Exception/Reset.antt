-- ===== src/Exception/Reset.antt =====
-- What a reset leaves behind.
use progs.Prelude.{ℕ, ◌≡◌, refl, arith, ◌==◌, if◌then◌else◌}
use progs.Prelude.Word.{u32}
use progs.Memory.{Memory}
use progs.Registers.{registers_create, write_usr_register}
use progs.Core.{ArmCore, ok, arm_write_cpsr, arm_write_usr_register}
use progs.Exception.{reset, arm_exception, arm_create}

-- The core with its status word, which is also its program counter, set to 0.
abbrev pub restarted : ArmCore → ArmCore
restarted p = record p { reg = record (p.reg) { cpsr = 0 } }

-- `arm_exception` handles RESET alone. It writes 0x1d3 to the status word and 0 to register 15,
-- and as these are one word the status is 0 afterwards; every other exception changes nothing.
pub arm_exception_lem :
    (e : ℕ) (p : ArmCore) → arm_exception e p ≡ ok tt (if e == reset then restarted p else p)
unfolding arm_exception arm_write_cpsr arm_write_usr_register write_usr_register
arm_exception_lem e p = ground arith

-- A new core starts at address 0 with cycle count 0 and status word 0, and its other registers
-- hold what the fresh block held.
pub arm_create_lem :
    (content : ℕ → ℕ) (status cycles : ℕ) (mem : Memory)
    → arm_create content status cycles mem
      ≡ ok tt (record {
        cycle_count = 0;
        reg = record { regs = λ i. u32 (content i); cpsr = 0 };
        mem = mem;
      })
unfolding arm_create registers_create arm_write_cpsr arm_write_usr_register write_usr_register
arm_create_lem content status cycles mem = refl
