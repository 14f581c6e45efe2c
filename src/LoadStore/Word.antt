-- ===== src/LoadStore/Word.antt =====
-- `arm_load_store` for LDR and STR of a word.
use progs.Prelude.{false, ℕ, ◌/◌, ◌%◌, ◌<◌, ◌≡◌, ◌≢◌, ◌&&◌, arith, ◌==◌, if◌then◌else◌}
use progs.Prelude.Word.{word_size}
use progs.Util.{Target}
use progs.Memory.Outcome.{IsAllocated, Fits}
use progs.Memory.Layout.{IsBytes, word_at, put_word, read_word-done, write_word-done}
use progs.Core.{ArmCore, ok, arm_read_word, arm_write_word}
use progs.Core.RegisterFile.{reg_at, put, read-ok, write-ok}
use progs.LoadStore.{arm_load_store, ldr_ldrb, str_strb}
use progs.LoadStore.Fields.{loads, rn_of, rd_of}
use progs.LoadStore.Addressing.{
  transfer_address, transfer_address-lt, writes_base, ShiftsWord, Loads, Stores, transfer_lem,
}

module _ (t : Target) (p : ArmCore) (ins : ℕ) where
  abbrev a : ℕ
  a = transfer_address t p ins

  -- An aligned place for a word; a register that is stored or shifted holds a word.
  abbrev pub IsWordPlace : Type 0
  IsWordPlace =
      IsAllocated p.mem
      × IsBytes p.mem
      × (a % 4 ≡ 0)
      × Fits p.mem a 4
      × (loads ins ≡ false → reg_at p (rd_of ins) < word_size)
      × ShiftsWord p ins

  ldr-done :
      ins / 4194304 % 2 ≡ 0 → rd_of ins ≢ 15 → IsWordPlace → Loads t p ins a (word_at p.mem a)
  unfolding ldr_ldrb arm_read_word
  ldr-done word ne (w, bytes, aligned, fits, small, _) = ground (
    arith,
    read_word-done t p.mem a w (transfer_address-lt t p ins) bytes aligned fits,
    write-ok p (rd_of ins) (omega arith) (word_at p.mem a),
    write-ok (put p (rd_of ins) (word_at p.mem a)) (rn_of ins) (omega arith) a,
  )

  str-done :
      ins / 4194304 % 2 ≡ 0
      → IsWordPlace
      → loads ins ≡ false
      → Stores t p ins a (put_word p.mem a (reg_at p (rd_of ins)))
  unfolding str_strb arm_write_word
  str-done word (w, bytes, aligned, fits, small, _) e = ground (
    arith,
    read-ok p (rd_of ins),
    write_word-done t p.mem a w (transfer_address-lt t p ins) (reg_at p (rd_of ins)) (small e)
        aligned fits,
  )

-- LDR and STR of a word at an immediate offset or at a shifted register, at an aligned address inside
-- the block: it returns 0. A load puts the word at the address into its register and changes no
-- byte; a store puts the word of its register at the address. The base register
-- becomes the address after every load, and after a store at an immediate offset if P is clear or W
-- is set; it then wins over a load into the same register. No other register changes.
pub arm_load_store-word :
    (t : Target) (p : ArmCore) (ins : ℕ)
    → ins / 4194304 % 2 ≡ 0
    → rd_of ins ≢ 15
    → rn_of ins ≢ 15
    → IsWordPlace t p ins
    → let a = transfer_address t p ins in
      (q : ArmCore) × (arm_load_store t ins p ≡ ok 0 q)
      × (q.mem ≡ (if loads ins then p.mem else put_word p.mem a (reg_at p (rd_of ins))))
      × (q.reg.cpsr ≡ p.reg.cpsr)
      × ((j : ℕ)
          → q.reg.regs j ≡ (
              if j == rn_of ins && writes_base ins
              then a
              else if loads ins && j == rd_of ins
              then word_at p.mem a
              else p.reg.regs j))
arm_load_store-word t p ins word hd hn place =
    transfer_lem t p ins _ _ hd hn place.5 (λ e. ldr-done t p ins word hd place)
      (str-done t p ins word place)
