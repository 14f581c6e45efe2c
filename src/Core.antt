-- ===== src/Core.antt =====
-- arm_core.c: the processor's state, and every access to its registers and memory.
-- The trace calls are left out: they change only what trace.c keeps for itself.
pub mod RegisterFile
pub mod Fetch
pub mod Frame
pub mod Typed
pub mod Words
use progs.Prelude.{ℕ, ◌+◌, ◌%◌, Option, none, some, bit_and, ltb, ◌==◌, if◌then◌else◌}
use progs.Prelude.Word.{u32, sub32}
use progs.Util.{Target}
use progs.Registers
use progs.Registers.{Registers}
use progs.Memory.{
  Memory, done, refused, fault as outside, memory_read_byte, memory_read_half, memory_read_word,
  memory_write_byte, memory_write_half, memory_write_word,
}
use progs.Memory

-- `struct arm_core_data`.
pub record ArmCore : Type 0 where
  pub cycle_count : ℕ
  pub reg : Registers
  pub mem : Memory

-- `fault` is an access outside the register file or the memory block.
pub data Run (A : Type 0) : Type 0 where
  ok : A → ArmCore → Run A
  fault : Run A

abbrev pub M : Type 0 → Type 0
M A = ArmCore → Run A

abbrev pub pure : {A : Type 0} → A → M A
pure a p = ok a p

abbrev pub and_then : {A B : Type 0} → Run A → (A → M B) → Run B
and_then (ok a p) k = k a p
and_then fault k = fault

infixl 5 ◌>>=◌ ◌>>◌
abbrev pub ◌>>=◌ : {A B : Type 0} → M A → (A → M B) → M B
◌>>=◌ m k p = and_then (m p) k

abbrev pub ◌>>◌ : {A B : Type 0} → M A → M B → M B
m >> n = m >>= λ _. n

abbrev pub gets : {A : Type 0} → (ArmCore → A) → M A
gets f p = ok (f p) p

abbrev pub some_or_fault : {A : Type 0} → Option A → M A
some_or_fault none p = fault
some_or_fault (some a) p = ok a p

abbrev pub put_registers : Option Registers → M (Unit {0})
put_registers none p = fault
put_registers (some r) p = ok tt (record p { reg = r })

-- The `int` -1, as a word.
abbrev pub minus_one : ℕ
minus_one = 0xFFFFFFFF

abbrev pub put_memory : Memory.Access Memory → M ℕ
put_memory (done m) p = ok 0 (record p { mem = m })
put_memory refused p = ok minus_one p
put_memory outside p = fault

-- `none` is the return value -1, with `*value` left as it was.
abbrev pub of_access : {A : Type 0} → Memory.Access A → M (Option A)
of_access (done a) p = ok (some a) p
of_access refused p = ok none p
of_access outside p = fault

unfoldable pub arm_current_mode_has_spsr : M ℕ
arm_current_mode_has_spsr = gets (λ p. Registers.current_mode_has_spsr p.reg)

pub arm_in_a_privileged_mode : M ℕ
arm_in_a_privileged_mode = gets (λ p. Registers.in_a_privileged_mode p.reg)

pub arm_get_cycle_count : M ℕ
arm_get_cycle_count = gets (λ p. p.cycle_count)

-- `value += 4; value &= 0xFFFFFFFD;`
abbrev pub as_pc : ℕ → ℕ
as_pc value = bit_and (u32 (value + 4)) 0xFFFFFFFD

unfoldable pub arm_read_register : ℕ → M ℕ
arm_read_register reg = do
  r ← gets (λ p. p.reg)
  value ← some_or_fault (Registers.read_register r reg)
  pure (if reg == 15 then as_pc value else value)

unfoldable pub arm_read_usr_register : ℕ → M ℕ
arm_read_usr_register reg = do
  r ← gets (λ p. p.reg)
  value ← some_or_fault (Registers.read_usr_register r reg)
  pure (if reg == 15 then as_pc value else value)

unfoldable pub arm_read_cpsr : M ℕ
arm_read_cpsr = gets (λ p. Registers.read_cpsr p.reg)

unfoldable pub arm_read_spsr : M ℕ
arm_read_spsr = gets (λ p. Registers.read_spsr p.reg)

unfoldable pub arm_write_register : ℕ → ℕ → M (Unit {0})
arm_write_register reg value = do
  r ← gets (λ p. p.reg)
  put_registers (Registers.write_register r reg value)

unfoldable pub arm_write_usr_register : ℕ → ℕ → M (Unit {0})
arm_write_usr_register reg value = do
  r ← gets (λ p. p.reg)
  put_registers (Registers.write_usr_register r reg value)

unfoldable pub arm_write_cpsr : ℕ → M (Unit {0})
arm_write_cpsr value p = ok tt (record p { reg = Registers.write_cpsr p.reg value })

unfoldable pub arm_write_spsr : ℕ → M (Unit {0})
arm_write_spsr value p = ok tt (record p { reg = Registers.write_spsr p.reg value })

abbrev pub next_cycle : M (Unit {0})
next_cycle p = ok tt (record p { cycle_count = u32 (p.cycle_count + 1) })

module _ (t : Target) where
  unfoldable pub arm_read_byte : ℕ → M (Option ℕ)
  arm_read_byte address p = of_access (memory_read_byte t p.mem address) p

  unfoldable pub arm_read_half : ℕ → M (Option ℕ)
  arm_read_half address p = of_access (memory_read_half t p.mem address) p

  unfoldable pub arm_read_word : ℕ → M (Option ℕ)
  arm_read_word address p = of_access (memory_read_word t p.mem address) p

  unfoldable pub arm_write_byte : ℕ → ℕ → M ℕ
  arm_write_byte address value p = put_memory (memory_write_byte t p.mem address value) p

  unfoldable pub arm_write_half : ℕ → ℕ → M ℕ
  arm_write_half address value p = put_memory (memory_write_half t p.mem address value) p

  unfoldable pub arm_write_word : ℕ → ℕ → M ℕ
  arm_write_word address value p = put_memory (memory_write_word t p.mem address value) p

  unfoldable pub arm_fetch : M (Option ℕ)
  arm_fetch = do
    next_cycle
    r15 ← arm_read_register 15
    let address = sub32 r15 4
    result ← arm_read_word address
    arm_write_register 15 (u32 (address + 4))
    pure result
