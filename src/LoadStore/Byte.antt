-- ===== src/LoadStore/Byte.antt =====
-- `arm_load_store` for LDRB and STRB.
use progs.Prelude.{ℕ, ◌/◌, ◌%◌, ◌≡◌, ◌≢◌, ◌&&◌, arith, ◌==◌, if◌then◌else◌}
use progs.Util.{Target}
use progs.Memory.Outcome.{IsAllocated, Fits}
use progs.Memory.Layout.{IsBytes, ReversesHalves, put_byte, read_byte-done, write_byte-done}
use progs.Core.{ArmCore, ok, arm_read_byte, arm_write_byte}
use progs.Core.RegisterFile.{reg_at, put, read-ok, write-ok}
use progs.LoadStore.{arm_load_store, ldr_ldrb, str_strb}
use progs.LoadStore.Fields.{loads, rn_of, rd_of}
use progs.LoadStore.Addressing.{
  transfer_address, transfer_address-lt, writes_base, ShiftsWord, Loads, Stores, transfer_lem,
}

module _ (t : Target) (p : ArmCore) (ins : ℕ) where
  abbrev a : ℕ
  a = transfer_address t p ins

  -- A place for a byte, on a host that reverses bytes; a register that is shifted holds a word.
  abbrev pub IsBytePlace : Type 0
  IsBytePlace =
      IsAllocated p.mem × IsBytes p.mem × ReversesHalves t p.mem × Fits p.mem a 1 × ShiftsWord p ins

  ldrb-done : ins / 4194304 % 2 ≡ 1 → rd_of ins ≢ 15 → IsBytePlace → Loads t p ins a (p.mem.memo a)
  unfolding ldr_ldrb arm_read_byte
  ldrb-done byte ne (w, bytes, host, fits, _) = ground (
    arith,
    read_byte-done t p.mem a w (transfer_address-lt t p ins) bytes host fits,
    write-ok p (rd_of ins) (omega arith) (p.mem.memo a),
    write-ok (put p (rd_of ins) (p.mem.memo a)) (rn_of ins) (omega arith) a,
  )

  strb-done :
      ins / 4194304 % 2 ≡ 1
      → IsBytePlace
      → Stores t p ins a (put_byte p.mem a (reg_at p (rd_of ins) % 256))
  unfolding str_strb arm_write_byte
  strb-done byte (w, bytes, host, fits, _) = ground (
    arith,
    read-ok p (rd_of ins),
    write_byte-done t p.mem a w (transfer_address-lt t p ins) (reg_at p (rd_of ins) % 256)
        (omega arith) host fits,
  )

-- LDRB and STRB at an immediate offset or at a shifted register, inside the block, on a little-endian
-- host or in big-endian memory: it returns 0. A load puts the byte at the address into its register
-- and changes no byte; a store puts the low byte of its register at the address. The base register
-- becomes the address after every load, and after a store at an immediate offset if P is clear or W
-- is set; it then wins over a load into the same register. No other register changes.
pub arm_load_store-byte :
    (t : Target) (p : ArmCore) (ins : ℕ)
    → ins / 4194304 % 2 ≡ 1
    → rd_of ins ≢ 15
    → rn_of ins ≢ 15
    → IsBytePlace t p ins
    → let a = transfer_address t p ins in
      (q : ArmCore) × (arm_load_store t ins p ≡ ok 0 q)
      × (q.mem ≡ (if loads ins then p.mem else put_byte p.mem a (reg_at p (rd_of ins) % 256)))
      × (q.reg.cpsr ≡ p.reg.cpsr)
      × ((j : ℕ)
          → q.reg.regs j ≡ (
              if j == rn_of ins && writes_base ins
              then a
              else if loads ins && j == rd_of ins
              then p.mem.memo a
              else p.reg.regs j))
arm_load_store-byte t p ins byte hd hn place =
    transfer_lem t p ins _ _ hd hn place.4 (λ e. ldrb-done t p ins byte hd place)
      (λ e. strb-done t p ins byte place)
