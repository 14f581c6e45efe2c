-- ===== src/DataProcessing/Results.antt =====
-- What the instructions of arm_data_processing.c store.
use progs.Prelude.{ℕ, ◌%◌, ◌<◌, ◌≡◌, arith, if◌then◌else◌, ltb}
use progs.Prelude.Word.{u8}
use progs.Core.{ArmCore, Run, ok, fault}
use progs.Core.RegisterFile.{reg_at, put, read-ok, write-ok}
use progs.DataProcessing.{logical, arithmetic, move, compare_with, test_with}
use progs.DataProcessing.Flags.{update_flags_lem, write_flags_lem}

module _ (p : ArmCore) (rsource rdest so : ℕ) (hs : rsource < 16) (hd : rdest < 16) where
  pub logical_lem :
      (f : ℕ → ℕ) (carry s : ℕ)
      → s < 2
      → logical rsource rdest so f carry s p ≡ ok 0 (put p rdest (f (reg_at p rsource)))
  logical_lem f carry s h = rw (
    read-ok p rsource hs,
    write-ok p rdest hd,
    update_flags_lem (put p rdest (f (reg_at p rsource))) s rdest carry 0xFF h hd,
  )

  pub arithmetic_lem :
      (f : ℕ → ℕ) (carry overflow : ℕ → ℕ → ℕ) (s : ℕ)
      → s < 2
      → arithmetic rsource rdest so f carry overflow s p ≡ ok 0 (put p rdest (f (reg_at p rsource)))
  arithmetic_lem f carry overflow s h =
      let q = put p rdest (f (reg_at p rsource)) in
      let rn = reg_at q rsource in
      let value = f (reg_at p rsource) in
      rw (
        read-ok p rsource hs,
        write-ok p rdest hd,
        read-ok q rsource hs,
        read-ok q rsource hs,
        update_flags_lem q s rdest (u8 (carry rn value)) (overflow rn value) h hd,
      )

module _ (p : ArmCore) (rdest : ℕ) (hd : rdest < 16) where
  pub move_lem :
      (so value carry s : ℕ) → s < 2 → move rdest so value carry s p ≡ ok 0 (put p rdest value)
  move_lem so value carry s h =
      rw (write-ok p rdest hd, update_flags_lem (put p rdest value) s rdest carry 0xFF h hd)

-- A comparison changes nothing, or reads outside the register file when the low byte of its result
-- is above 15.
abbrev pub compared : ArmCore → ℕ → Run ℕ
compared p result = if ltb (result % 256) 16 then ok 0 p else fault

module _ (p : ArmCore) (rsource so : ℕ) (hs : rsource < 16) where
  pub compare_lem :
      (f : ℕ → ℕ) (carry overflow : ℕ → ℕ → ℕ)
      → compare_with rsource so f carry overflow p ≡ compared p (f (reg_at p rsource))
  compare_lem f carry overflow =
      let rn = reg_at p rsource in
      rw
        (
          read-ok p rsource hs,
          read-ok p rsource hs,
          read-ok p rsource hs,
          write_flags_lem p (u8 (f rn)) (u8 (carry rn (f rn))) (overflow rn (f rn)),
        )
        (ground arith)

  pub test_lem :
      (f : ℕ → ℕ) (carry : ℕ) → test_with rsource so f carry p ≡ compared p (f (reg_at p rsource))
  test_lem f carry =
      let rn = reg_at p rsource in
      rw (read-ok p rsource hs, write_flags_lem p (u8 (f rn)) carry 0xFF) (ground arith)
