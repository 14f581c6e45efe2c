-- ===== src/Exception.antt =====
-- arm_exception.c, and `arm_create` of arm_core.c, which raises the first reset.
pub mod Reset
use progs.Prelude.{ℕ, bit_or, ◌==◌, if◌then◌else◌}
use progs.Prelude.Word.{◌<<<◌, u32}
use progs.Memory.{Memory}
use progs.Registers.{registers_create}
use progs.Core.{
  ArmCore, Run, and_then, M, pure, ok, ◌>>=◌, ◌>>◌, arm_write_cpsr, arm_write_usr_register,
}

-- The exception numbers of arm_constants.h.
abbrev pub reset : ℕ
reset = 1

abbrev pub undefined_instruction : ℕ
undefined_instruction = 2

abbrev pub software_interrupt : ℕ
software_interrupt = 3

abbrev pub cp15_reg1_eebit : ℕ
cp15_reg1_eebit = 0

abbrev pub exception_bit_9 : ℕ
exception_bit_9 = cp15_reg1_eebit <<< 9

unfoldable pub arm_exception : ℕ → M (Unit {0})
arm_exception exception =
    if exception == reset
    then (do arm_write_cpsr (bit_or 0x1d3 exception_bit_9); arm_write_usr_register 15 0)
    else pure tt

-- `content`, `status` and `cycles` are what the fresh blocks hold.
unfoldable pub arm_create : (content : ℕ → ℕ) → (status cycles : ℕ) → Memory → Run (Unit {0})
unfolding arm_exception
arm_create content status cycles mem =
    let p : ArmCore = record {
      cycle_count = u32 cycles;
      reg = registers_create content status;
      mem = mem;
    } in
    and_then (arm_exception reset p) (λ _ q. ok tt (record q { cycle_count = 0 }))
