-- ===== src/Traced.antt =====
-- arm_core.c with its trace calls, and the macros of trace_location.h around the accesses. Core has
-- the same functions without the trace.
pub mod Follows
pub mod Accesses
pub mod Located
pub mod State
use progs.Prelude.{
  ℕ, zero, suc, ◌+◌, ◌%◌, Bool, true, false, ◌&&◌, ◌||◌, Option, none, some, ltb, ◌==◌,
  if◌then◌else◌, List, [], ◌∷◌, ◌++◌,
}
use progs.Prelude.Word.{u32, sub32}
use progs.Util.{Target}
use progs.Registers
use progs.Core
use progs.Core.{ArmCore, Run, ok, M, next_cycle}
use progs.LoadStore.{or_unassigned}
use progs.Constants.{Name, arm_get_mode_name, arm_get_register_name}
use progs.Trace.{Trace, trace_memory, trace_register, trace_start_location, trace_end_location}

-- `outside` is an access outside an array of the core or of the trace.
pub data Traced (A : Type 0) : Type 0 where
  finished : A → ArmCore → Trace → Traced A
  outside : Traced A

abbrev pub T : Type 0 → Type 0
T A = ArmCore → Trace → Traced A

abbrev pub pure : {A : Type 0} → A → T A
pure a p s = finished a p s

abbrev pub and_then : {A B : Type 0} → Traced A → (A → T B) → Traced B
and_then (finished a p s) k = k a p s
and_then outside k = outside

infixl 5 ◌>>=◌ ◌>>◌
abbrev pub ◌>>=◌ : {A B : Type 0} → T A → (A → T B) → T B
◌>>=◌ m k p s = and_then (m p s) k

abbrev pub ◌>>◌ : {A B : Type 0} → T A → T B → T B
m >> n = m >>= λ _. n

-- What a function does before its trace call.
abbrev pub of_run : {A : Type 0} → Trace → Run A → Traced A
of_run s (Core.ok a p) = finished a p s
of_run s Core.fault = outside

abbrev pub untraced : {A : Type 0} → M A → T A
untraced m p s = of_run s (m p)

abbrev pub of_trace : ArmCore → Option Trace → Traced (Unit {0})
of_trace p none = outside
of_trace p (some s) = finished tt p s

abbrev pub tracing : (ArmCore → Trace → Option Trace) → T (Unit {0})
tracing f p s = of_trace p (f p s)

-- WRITE and READ, OTHER_ACCESS and OPCODE_FETCH, CPSR and SPSR of trace.h, and USR of
-- arm_constants.h.
abbrev pub register_traced :
    (type reg : ℕ) → (mode : Registers.Registers → ℕ) → (value : ℕ) → T (Unit {0})
register_traced type reg mode value =
    tracing (λ p s. trace_register p.cycle_count type reg (mode p.reg) value s)

abbrev pub memory_traced : (type size cause address value : ℕ) → T (Unit {0})
memory_traced type size cause address value =
    tracing (λ p s. trace_memory p.cycle_count type size cause address value s)

abbrev pub usr : Registers.Registers → ℕ
usr r = 0x10

abbrev pub no_mode : Registers.Registers → ℕ
no_mode r = 0

unfoldable pub arm_read_register : ℕ → T ℕ
arm_read_register reg = do
  value ← untraced (Core.arm_read_register reg)
  register_traced 1 reg Registers.get_mode value
  pure value

unfoldable pub arm_read_usr_register : ℕ → T ℕ
arm_read_usr_register reg = do
  value ← untraced (Core.arm_read_usr_register reg)
  register_traced 1 reg usr value
  pure value

unfoldable pub arm_read_cpsr : T ℕ
arm_read_cpsr = do
  value ← untraced Core.arm_read_cpsr
  register_traced 1 16 no_mode value
  pure value

unfoldable pub arm_read_spsr : T ℕ
arm_read_spsr = do
  value ← untraced Core.arm_read_spsr
  register_traced 1 17 Registers.get_mode value
  pure value

unfoldable pub arm_write_register : (reg value : ℕ) → T (Unit {0})
arm_write_register reg value = do
  untraced (Core.arm_write_register reg value)
  register_traced 0 reg Registers.get_mode value

unfoldable pub arm_write_usr_register : (reg value : ℕ) → T (Unit {0})
arm_write_usr_register reg value = do
  untraced (Core.arm_write_usr_register reg value)
  register_traced 0 reg usr value

unfoldable pub arm_write_cpsr : ℕ → T (Unit {0})
arm_write_cpsr value = do untraced (Core.arm_write_cpsr value); register_traced 0 16 no_mode value

unfoldable pub arm_write_spsr : ℕ → T (Unit {0})
arm_write_spsr value = do
  untraced (Core.arm_write_spsr value)
  register_traced 0 17 Registers.get_mode value

-- LOCATION and END_LOCATION around an access, from left to right.
abbrev pub located : {A : Type 0} → (file : Name) (line : ℕ) → T A → T A
located file line m = do
  tracing (λ p s. trace_start_location file line s)
  a ← m
  tracing (λ p s. some (trace_end_location s))
  pure a

module _ (t : Target) where
  -- `old` is what the caller's variable holds: a refused read leaves it, and it is traced.
  unfoldable pub arm_fetch : (old : ℕ) → T (Option ℕ)
  arm_fetch old = do
    untraced next_cycle
    r15 ← arm_read_register 15
    let address = sub32 r15 4
    result ← untraced (Core.arm_read_word t address)
    memory_traced 1 4 1 address (or_unassigned result old)
    arm_write_register 15 (u32 (address + 4))
    pure result

  abbrev pub read_traced : (size old : ℕ) → M (Option ℕ) → (address : ℕ) → T (Option ℕ)
  read_traced size old access address = do
    result ← untraced access
    memory_traced 1 size 0 address (or_unassigned result old)
    pure result

  unfoldable pub arm_read_byte : (old address : ℕ) → T (Option ℕ)
  arm_read_byte old address = read_traced 1 old (Core.arm_read_byte t address) address

  unfoldable pub arm_read_half : (old address : ℕ) → T (Option ℕ)
  arm_read_half old address = read_traced 2 old (Core.arm_read_half t address) address

  unfoldable pub arm_read_word : (old address : ℕ) → T (Option ℕ)
  arm_read_word old address = read_traced 4 old (Core.arm_read_word t address) address

  abbrev pub write_traced : (size : ℕ) → M ℕ → (address value : ℕ) → T ℕ
  write_traced size access address value = do
    result ← untraced access
    memory_traced 0 size 0 address value
    pure result

  unfoldable pub arm_write_byte : (address value : ℕ) → T ℕ
  arm_write_byte address value = write_traced 1 (Core.arm_write_byte t address value) address value

  unfoldable pub arm_write_half : (address value : ℕ) → T ℕ
  arm_write_half address value = write_traced 2 (Core.arm_write_half t address value) address value

  unfoldable pub arm_write_word : (address value : ℕ) → T ℕ
  arm_write_word address value = write_traced 4 (Core.arm_write_word t address value) address value
