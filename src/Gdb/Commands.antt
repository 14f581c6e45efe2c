-- ===== src/Gdb/Commands.antt =====
-- The commands P and p of gdb_protocol.c on one register.
use progs.Prelude.{
  ℕ, ◌<◌, ◌≤◌, ◌≡◌, refl, ap, ap₂, ◌∙◌, Bool, arith, ltb, lt→ltb, ◌==◌, if◌then◌else◌, Option, some,
  List, [], ◌∷◌, ◌++◌,
}
use progs.Prelude.Word.{word_size, u32, sub32}
use progs.Prelude.Lists.{length}
use progs.Util.{Target}
use progs.Core.{ArmCore, arm_write_register, arm_read_register}
use progs.Core.RegisterFile.{put, reg_at, write_register-ok, read_register-ok}
use progs.Gdb.{
  G, Gdb, replied, outside, ◌>>=◌, ◌>>◌, on_core, some_or_outside, assert, sent, framed, scanned_or,
  write_uint32, read_uint32, gdb_send_buffer, gdb_send_data,
}
use progs.Gdb.Text.{ok, after}
use progs.Gdb.Scan.{hex_digit, atoi}
use progs.Gdb.Words.{read_uint32-write_uint32, length-write_uint32, one_digit}
use progs.Gdb.Handlers.{write_register, read_register}

-- The state after an answer with this text.
abbrev pub answered : List ℕ → Gdb → Gdb
answered text g = record g { packet = framed text; events = g.events ++ (sent (framed text) ∷ []) }

-- An answer of more than 1019 characters does not fit the packet.
pub send_any :
    (text : List ℕ) (g : Gdb)
    → gdb_send_buffer text g
      ≡ (if ltb 1019 (length text) then outside else replied tt (answered text g))
unfolding gdb_send_buffer
send_any text g = ground arith

pub send_lem :
    (text : List ℕ) (g : Gdb)
    → length text ≤ 1019
    → gdb_send_buffer text g ≡ replied tt (answered text g)
unfolding gdb_send_buffer
send_lem text g h = ground arith

-- The state with another core.
abbrev pub with_core : ArmCore → Gdb → Gdb
with_core p g = record g { arm = p }

module _ (t : Target) (target_big_endian : Bool) (d : ℕ) (g : Gdb) (digit : d < 16) where
  abbrev writing : (reg : ℕ) (value : Option ℕ) → G (Unit {0})
  writing reg value = do
    v ← some_or_outside value
    assert (ltb reg 16)
    on_core (arm_write_register reg v)
    gdb_send_data ok

  written : (v : ℕ) → writing d (some v) g ≡ replied tt (answered ok (with_core (put g.arm d v) g))
  unfolding gdb_send_data
  written v =
      rw (lt→ltb d 16 digit, write_register-ok g.arm d digit v)
        (send_lem ok (with_core (put g.arm d v) g) (omega arith))

  equals : (s : List ℕ) → after 61 (hex_digit d ∷ 61 ∷ s) ≡ s
  equals s = ground arith

  -- `P` with a register's hexadecimal digit, `=` and a word stores the word and answers OK.
  pub write_register_lem :
      (v : ℕ) (rest : List ℕ)
      → v < word_size
      → write_register t target_big_endian
          (hex_digit d ∷ 61 ∷ (write_uint32 t target_big_endian v ++ rest))
          g
        ≡ replied tt (answered ok (with_core (put g.arm d v) g))
  unfolding write_register
  write_register_lem v rest h =
      let s = write_uint32 t target_big_endian v ++ rest in
      let junk = u32 (t.unassigned g.arm.cycle_count) in
      ap (λ (run : G (Unit {0})). run g)
        (ap₂ writing
          (ap (scanned_or junk)
            (one_digit (length (hex_digit d ∷ 61 ∷ s)) d 61 s digit (omega arith) refl refl refl))
          (ap (read_uint32 t target_big_endian junk) (equals s)
            ∙ read_uint32-write_uint32 t target_big_endian junk v rest h))
      ∙ written v

  -- `atoi` reads decimal digits only.
  abbrev pub decimal : ℕ
  decimal = if ltb d 10 then d else 0

  atoi-hex_digit : (rest : List ℕ) → atoi (hex_digit d ∷ 0 ∷ rest) ≡ decimal
  atoi-hex_digit rest = ground arith

  abbrev reading : (reg : ℕ) → G (Unit {0})
  reading reg = do
    assert (ltb reg 16)
    value ← on_core (arm_read_register reg)
    gdb_send_buffer (write_uint32 t target_big_endian (sub32 value (if reg == 15 then 4 else 0)))

  read_low :
      (reg : ℕ)
      → reg < 10
      → g.arm.reg.regs reg < word_size
      → reading reg g
        ≡ replied tt (answered (write_uint32 t target_big_endian (g.arm.reg.regs reg)) g)
  read_low reg low word =
      rw (lt→ltb reg 16 (omega arith), read_register-ok g.arm reg (omega arith))
        (ap (λ (v : ℕ). gdb_send_buffer (write_uint32 t target_big_endian v) g) same
          ∙ send_lem (write_uint32 t target_big_endian (g.arm.reg.regs reg)) g
              (omega (arith, length-write_uint32 t target_big_endian (g.arm.reg.regs reg))))
    where
      same : sub32 (reg_at g.arm reg) (if reg == 15 then 4 else 0) ≡ g.arm.reg.regs reg
      same = ground arith

  -- `p` with a register's hexadecimal digit answers with the word of that register if the digit is
  -- 0 to 9, and with that of register 0 if it is a to f. No register changes.
  pub read_register_lem :
      (rest : List ℕ)
      → g.arm.reg.regs decimal < word_size
      → read_register t target_big_endian (hex_digit d ∷ 0 ∷ rest) g
        ≡ replied tt (answered (write_uint32 t target_big_endian (g.arm.reg.regs decimal)) g)
  unfolding read_register
  read_register_lem rest word =
      let low : decimal < 10 = ground arith in
      ap (λ (reg : ℕ). reading reg g) (atoi-hex_digit rest) ∙ read_low decimal low word
