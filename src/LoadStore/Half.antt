-- ===== src/LoadStore/Half.antt =====
-- `arm_load_store_h`: LDRH and STRH, at an immediate or a register offset.
use progs.Prelude.{
  ℕ, ◌+◌, ◌*◌, ◌/◌, ◌%◌, ◌≤◌, ◌<◌, ◌≡◌, ◌≢◌, refl, ◌∙◌, Bool, Bool-cases, inl, inr, true, false,
  ◌&&◌, arith, ◌==◌, if◌then◌else◌, is_set,
}
use progs.Prelude.Word.{word_size, u32, sub32}
use progs.Prelude.Masks.{bit_or_fields}
use progs.Util.{Target}
use progs.Memory.{Memory, done, memory_read_half, memory_write_half}
use progs.Memory.Outcome.{IsAllocated, Fits}
use progs.Memory.Layout.{
  IsBytes, ReversesHalves, half_at, put_half, read_half-done, write_half-done,
}
use progs.Core.{ArmCore, ok, arm_read_half, arm_write_half}
use progs.Core.RegisterFile.{reg_at, put, read-ok, write-ok}
use progs.LoadStore.{arm_load_store_h}
use progs.LoadStore.Fields.{loads, rn_of, rd_of, stores_back}

-- The immediate offset is split: bits 11 to 8 above bits 3 to 0. Without the I bit (22) the offset is
-- the register of bits 3 to 0.
abbrev pub half_offset : ArmCore → ℕ → ℕ
half_offset p ins =
    if is_set (ins / 4194304 % 2) then ins / 256 % 16 * 16 + ins % 16 else reg_at p (ins % 16)

abbrev pub half_address : ArmCore → ℕ → ℕ
half_address p ins =
    let base = reg_at p (rn_of ins) in
    let offset = half_offset p ins in
    if is_set (ins / 8388608 % 2) then u32 (base + offset) else sub32 base offset

-- A load of `v` or a store that leaves `m`, and then the base register.
abbrev after_half : (load back : Bool) (p : ArmCore) (m : Memory) (rd rn a v : ℕ) → ArmCore
after_half load back p m rd rn a v =
    let q = if load then put p rd v else record p { mem = m } in if back then put q rn a else q

after_half_lem :
    (load back : Bool) (p : ArmCore) (m : Memory) (rd rn a v : ℕ)
    → rd ≢ 15
    → rn ≢ 15
    → ((after_half load back p m rd rn a v).mem ≡ (if load then p.mem else m))
      × ((after_half load back p m rd rn a v).reg.cpsr ≡ p.reg.cpsr)
      × ((j : ℕ)
          → (after_half load back p m rd rn a v).reg.regs j
            ≡ (if j == rn && back then a else if load && j == rd then v else p.reg.regs j))
after_half_lem true true p m rd rn a v hd hn = (ground arith, ground arith, λ j. ground arith)
after_half_lem true false p m rd rn a v hd hn = (ground arith, ground arith, λ j. ground arith)
after_half_lem false true p m rd rn a v hd hn = (ground arith, ground arith, λ j. ground arith)
after_half_lem false false p m rd rn a v hd hn = (refl, refl, λ j. ground arith)

module _ (t : Target) (p : ArmCore) (ins : ℕ) where
  abbrev a : ℕ
  a = half_address p ins

  ldrh-done :
      (v : ℕ)
      → loads ins ≡ true
      → rd_of ins ≢ 15
      → memory_read_half t p.mem a ≡ done v
      → let q = put p (rd_of ins) v in
        arm_load_store_h t ins p ≡ ok 0 (if stores_back ins then put q (rn_of ins) a else q)
  unfolding arm_load_store_h arm_read_half
  ldrh-done v load ne e = ground (
    arith,
    read-ok p (rn_of ins),
    read-ok p (ins % 16),
    bit_or_fields 4 (ins / 256 % 16) (ins % 16),
    write-ok p (rd_of ins) (omega arith) v,
    write-ok (put p (rd_of ins) v) (rn_of ins) (omega arith) a,
  )

  strh-done :
      (m : Memory)
      → loads ins ≡ false
      → memory_write_half t p.mem a (reg_at p (rd_of ins) % 65536) ≡ done m
      → let q = record p { mem = m } in
        arm_load_store_h t ins p ≡ ok 0 (if stores_back ins then put q (rn_of ins) a else q)
  unfolding arm_load_store_h arm_write_half
  strh-done m load e = ground (
    arith,
    read-ok p (rn_of ins),
    read-ok p (ins % 16),
    bit_or_fields 4 (ins / 256 % 16) (ins % 16),
    read-ok p (rd_of ins),
    write-ok (record p { mem = m }) (rn_of ins) (omega arith) a,
  )

  half_address-lt : a < word_size
  half_address-lt = ground arith

  -- A place for a half, on a host that reverses halves.
  abbrev pub IsHalfPlace : Type 0
  IsHalfPlace =
      IsAllocated p.mem × IsBytes p.mem × ReversesHalves t p.mem × (a % 4 ≤ 2) × Fits p.mem a 2

  -- The core after the transfer.
  abbrev pub transferred : ArmCore
  transferred =
      after_half (loads ins) (stores_back ins) p (put_half p.mem a (reg_at p (rd_of ins) % 65536))
        (rd_of ins) (rn_of ins) a (half_at p.mem a)

  arm_load_store_h-done : rd_of ins ≢ 15 → IsHalfPlace → arm_load_store_h t ins p ≡ ok 0 transferred
  arm_load_store_h-done ne (w, bytes, host, aligned, fits) = elim (Bool-cases (loads ins)) [
    | inl load ↦
        ldrh-done (half_at p.mem a) load ne
          (read_half-done t p.mem a w half_address-lt bytes host aligned fits)
        ∙ rw load refl
    | inr store ↦
        strh-done (put_half p.mem a (reg_at p (rd_of ins) % 65536)) store (
          write_half-done t p.mem a w half_address-lt (reg_at p (rd_of ins) % 65536) (omega arith)
            host aligned fits)
        ∙ rw store refl
  ]

-- LDRH and STRH with an immediate or a register offset, inside the block and at an address whose two
-- low bits are not 3, on a little-endian host or in big-endian memory: it returns 0. A load puts the
-- half at the address into its register and changes no byte; a store puts the low half of its
-- register at the address. The base register becomes the address if P is clear or W is set, and
-- then wins over a load into the same register. Nothing else changes.
pub arm_load_store_h_lem :
    (t : Target) (p : ArmCore) (ins : ℕ)
    → rd_of ins ≢ 15
    → rn_of ins ≢ 15
    → IsHalfPlace t p ins
    → (q : ArmCore) × (arm_load_store_h t ins p ≡ ok 0 q)
      × (q.mem ≡ (
          if loads ins
          then p.mem
          else put_half p.mem (half_address p ins) (reg_at p (rd_of ins) % 65536)))
      × (q.reg.cpsr ≡ p.reg.cpsr)
      × ((j : ℕ)
          → q.reg.regs j ≡ (
              if j == rn_of ins && stores_back ins
              then half_address p ins
              else if loads ins && j == rd_of ins
              then half_at p.mem (half_address p ins)
              else p.reg.regs j))
arm_load_store_h_lem t p ins hd hn place =
    let a = half_address p ins in
    let (mem, cpsr, regs) =
      after_half_lem (loads ins) (stores_back ins) p
        (put_half p.mem a (reg_at p (rd_of ins) % 65536)) (rd_of ins) (rn_of ins) a
        (half_at p.mem a) hd hn in
    (transferred t p ins, arm_load_store_h-done t p ins hd place, mem, cpsr, regs)
