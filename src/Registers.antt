-- ===== src/Registers.antt =====
-- registers.c: the register file.
-- `struct registers_data` is `uint32_t regs[15]` and then `uint32_t cpsr`, sixteen words in a row,
-- but the callers number the registers 0 to 15. So `regs[15]`, past the array, is the next word of
-- the struct, `cpsr`, and an index above 15 is outside the struct (`none`).
use progs.Prelude.{ℕ, Option, none, some, ltb, ◌==◌, if◌then◌else◌}
use progs.Prelude.Word.{u32}

pub record Registers : Type 0 where
  pub regs : ℕ → ℕ
  pub cpsr : ℕ

-- `content` and `status` are what the fresh block holds.
unfoldable pub registers_create : (content : ℕ → ℕ) → (status : ℕ) → Registers
registers_create content status = record { regs = λ i. u32 (content i); cpsr = u32 status }

-- The mode functions return 0: one mode, user, with no SPSR.
abbrev pub get_mode : Registers → ℕ
get_mode r = 0

abbrev pub current_mode_has_spsr : Registers → ℕ
current_mode_has_spsr r = 0

abbrev pub in_a_privileged_mode : Registers → ℕ
in_a_privileged_mode r = 0

unfoldable pub read_usr_register : Registers → ℕ → Option ℕ
read_usr_register r reg =
    if ltb reg 15 then some (r.regs reg) else if reg == 15 then some r.cpsr else none

abbrev pub read_register : Registers → ℕ → Option ℕ
read_register r reg = read_usr_register r reg

abbrev pub read_cpsr : Registers → ℕ
read_cpsr r = r.cpsr

abbrev pub read_spsr : Registers → ℕ
read_spsr r = 0

abbrev pub update : (ℕ → ℕ) → ℕ → ℕ → ℕ → ℕ
update f i v j = if j == i then v else f j

unfoldable pub write_usr_register : Registers → ℕ → ℕ → Option Registers
write_usr_register r reg value =
    if ltb reg 15
    then some (record r { regs = update r.regs reg value })
    else if reg == 15
    then some (record r { cpsr = value })
    else none

abbrev pub write_register : Registers → ℕ → ℕ → Option Registers
write_register r reg value = write_usr_register r reg value

abbrev pub write_cpsr : Registers → ℕ → Registers
write_cpsr r value = record r { cpsr = value }

abbrev pub write_spsr : Registers → ℕ → Registers
write_spsr r value = r
