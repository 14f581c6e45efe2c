-- ===== src/Gdb/Handlers.antt =====
-- The command handlers of gdb_protocol.c. The debug and trace calls are left out.
use progs.Prelude.{
  ℕ, zero, suc, ◌+◌, Bool, true, false, ◌&&◌, ◌||◌, Option, none, some, ltb, ◌==◌, if◌then◌else◌,
  List, [], ◌∷◌, ◌++◌, bit_and, bit_xor,
}
use progs.Prelude.Word.{u32, sub32}
use progs.Prelude.Lists.{drop, length}
use progs.Util.{Target}
use progs.Memory.{Access, done, refused, memory_read_byte, memory_write_byte, memory_get_size}
use progs.Memory
use progs.Core.{arm_read_register, arm_write_register, arm_read_cpsr, arm_write_cpsr, arm_read_word}
use progs.LoadStore.{or_unassigned}
use progs.Instruction.{arm_step}
use progs.Gdb.{
  G, replied, outside, running, pure, gets, ◌>>=◌, ◌>>◌, on_core, some_or_outside, assert, emit,
  shut, gdb_send_buffer, gdb_send_data, gdb_send_stop_reason, write_uint32, read_uint32, scanned_or,
}
use progs.Gdb.Text.{
  ok, e01, e02, offsets, offsets_answer, supported, supported_answer, t_status, t_status_answer,
  symbol, eight_x, c_string, same_string, starts_with, after,
}
use progs.Gdb.Scan.{hex2, scan_hex, Scanned, atoi}

-- A local that is not assigned.
abbrev junk : Target → G ℕ
junk t = gets (λ g. u32 (t.unassigned g.arm.cycle_count))

-- The two numbers of `sscanf(data, "%x,%x", &address, &size)`; an unassigned one is `junk`.
abbrev pub second : (size : ℕ) → List ℕ → ℕ
second size [] = size
second size (c ∷ s) = if c == 44 then scanned_or size (scan_hex (length s) s) else size

abbrev pub first_and_second : (address size : ℕ) → Option Scanned → ℕ × ℕ
first_and_second address size none = (address, size)
first_and_second address size (some (v, s)) = (v, second size s)

abbrev pub address_and_size : (unassigned : ℕ) → List ℕ → ℕ × ℕ
address_and_size unassigned data' =
    first_and_second unassigned unassigned (scan_hex (length data') data')

-- Stores the byte or the refusal of an access; an access outside the block ends the run.
abbrev pub of_access : {A : Type 0} → Access A → G (Option A)
of_access (done a) = pure (some a)
of_access refused = pure none
of_access Memory.fault = λ g. outside

abbrev pub put_arm_memory : Option Memory.Memory → G Bool
put_arm_memory none = pure false
put_arm_memory (some m) = λ g. replied true (record g { arm = record (g.arm) { mem = m } })

abbrev pub kill_request : List ℕ → G (Unit {0})
kill_request data' = emit shut

unfoldable pub query : List ℕ → G (Unit {0})
query data' =
    let s = c_string data' in
    if same_string s offsets
    then gdb_send_data offsets_answer
    else if starts_with s supported
    then gdb_send_data supported_answer
    else if same_string s t_status
    then gdb_send_data t_status_answer
    else if same_string s symbol
    then gdb_send_data []
    else gdb_send_data []

abbrev pub reason : List ℕ → G (Unit {0})
reason data' = gdb_send_stop_reason

-- `value < 1 && value > -2` of an int: 0 or -1. An empty string has no type and is refused.
abbrev pub set_thread : List ℕ → G (Unit {0})
set_thread [] = λ g. outside
set_thread (type ∷ rest) =
    let value = atoi rest in
    if (type == 99 || type == 103) && (value == 0 || value == 0xFFFFFFFF)
    then gdb_send_data ok
    else gdb_send_data e01

module _ (t : Target) (target_big_endian : Bool) where
  -- `running` once the fuel is used up: the loop ends only at a breakpoint.
  unfoldable pub cont_loop : (fuel : ℕ) (instruction : ℕ) → G (Unit {0})
  cont_loop zero instruction = λ g. running
  cont_loop (suc fuel) instruction = do
    r15 ← on_core (arm_read_register 15)
    word ← on_core (arm_read_word t (sub32 r15 4))
    let instruction' = or_unassigned word instruction
    if bit_and instruction' 0xFFF000F0 == 0xE7F000F0 then pure tt else (do
      result ← on_core (arm_step t)
      (λ g. replied tt (record g { target_exception = result }))
      cont_loop fuel instruction')

  unfoldable pub cont : (fuel : ℕ) → List ℕ → G (Unit {0})
  unfolding cont_loop
  cont fuel data' = do instruction ← junk t; cont_loop fuel instruction; gdb_send_stop_reason

  unfoldable pub step : List ℕ → G (Unit {0})
  step data' = do
    result ← on_core (arm_step t)
    (λ g. replied tt (record g { target_exception = result }))
    gdb_send_stop_reason

  -- `for (i = 0; i < 15; i++)`, with the rounds left.
  abbrev pub registers_text : ℕ → (i : ℕ) → G (List ℕ)
  registers_text zero i = pure []
  registers_text (suc n) i = do
    r ← on_core (arm_read_register i)
    rest ← registers_text n (i + 1)
    pure (write_uint32 t target_big_endian r ++ rest)

  abbrev pub unknown_words : ℕ → List ℕ
  unknown_words zero = []
  unknown_words (suc n) = eight_x ++ unknown_words n

  unfoldable pub read_general_registers : List ℕ → G (Unit {0})
  read_general_registers data' = do
    general ← registers_text 15 0
    pc ← on_core (arm_read_register 15)
    cpsr ← on_core arm_read_cpsr
    gdb_send_buffer (
        general
        ++ write_uint32 t target_big_endian (sub32 pc 4)
        ++ unknown_words 25
        ++ write_uint32 t target_big_endian cpsr)

  -- A byte's digits and the text after it; a refused byte ends the text.
  abbrev pub then_text : Option ℕ → G (List ℕ) → G (List ℕ)
  then_text none rest = pure []
  then_text (some v) rest = do text ← rest; pure (hex2 v ++ text)

  -- `while (size-- && memory_read_byte(…) != -1)`
  unfoldable pub memory_text : (size address : ℕ) → G (List ℕ)
  memory_text zero address = pure []
  memory_text (suc size) address = do
    m ← gets (λ g. g.arm.mem)
    value ← of_access (memory_read_byte t m address)
    then_text value (memory_text size (u32 (address + 1)))

  unfoldable pub read_memory : List ℕ → G (Unit {0})
  read_memory data' = do
    unassigned ← junk t
    let (address, size) = address_and_size unassigned data'
    text ← memory_text size address
    gdb_send_buffer text

  unfoldable pub read_register : List ℕ → G (Unit {0})
  read_register data' = do
    let reg = atoi data'
    assert (ltb reg 16)
    value ← on_core (arm_read_register reg)
    gdb_send_buffer (write_uint32 t target_big_endian (sub32 value (if reg == 15 then 4 else 0)))

  -- `for (i = 0; i < 16; i++)`, with the rounds left; the result is `position`.
  abbrev pub write_registers_loop : ℕ → (i : ℕ) → List ℕ → G (List ℕ)
  write_registers_loop zero i position = pure position
  write_registers_loop (suc n) i position = do
    unassigned ← junk t
    value ← some_or_outside (read_uint32 t target_big_endian unassigned position)
    on_core (arm_write_register i value)
    write_registers_loop n (i + 1) (drop 8 position)

  -- The words that are read and not used.
  abbrev pub skip_words : ℕ → List ℕ → G (List ℕ)
  skip_words zero position = pure position
  skip_words (suc n) position = do
    unassigned ← junk t
    value ← some_or_outside (read_uint32 t target_big_endian unassigned position)
    skip_words n (drop 8 position)

  unfoldable pub write_general_registers : List ℕ → G (Unit {0})
  write_general_registers data' = do
    position ← write_registers_loop 16 0 data'
    position' ← skip_words 25 position
    unassigned ← junk t
    value ← some_or_outside (read_uint32 t target_big_endian unassigned position')
    on_core (arm_write_cpsr value)
    gdb_send_data ok

  unfoldable pub write_register : List ℕ → G (Unit {0})
  write_register data' = do
    unassigned ← junk t
    let reg = scanned_or unassigned (scan_hex (length data') data')
    value ← some_or_outside (read_uint32 t target_big_endian unassigned (after 61 data'))
    assert (ltb reg 16)
    on_core (arm_write_register reg value)
    gdb_send_data ok

  -- One byte of the content and what follows it: 0x7d escapes the next byte.
  abbrev pub unescaped : List ℕ → Option (ℕ × List ℕ)
  unescaped [] = none
  unescaped (c ∷ []) = if c == 125 then none else some (c, [])
  unescaped (c ∷ d ∷ s) = if c == 125 then some (bit_xor d 32, s) else some (c, d ∷ s)

  -- The loop with the rounds left; the result is `write_ok`.
  unfoldable pub binary_loop : ℕ → (address : ℕ) → List ℕ → G Bool
  binary_loop zero address content = pure true
  binary_loop (suc n) address content = do
    (value, content') ← some_or_outside (unescaped content)
    m ← gets (λ g. g.arm.mem)
    written ← of_access (memory_write_byte t m address value)
    write_ok ← put_arm_memory written
    if write_ok then binary_loop n (u32 (address + 1)) content' else pure false

  unfoldable pub write_memory_binary : List ℕ → G (Unit {0})
  write_memory_binary data' = do
    unassigned ← junk t
    let (address, size) = address_and_size unassigned data'
    m ← gets (λ g. g.arm.mem)
    write_ok ←
        (if ltb address (memory_get_size m)
          then binary_loop size address (after 58 data')
          else pure false)
    if write_ok then gdb_send_data ok else gdb_send_data e02
