-- ===== src/LoadStore/Addressing.antt =====
-- `arm_load_store` at an immediate offset or a shifted register, around its transfer.
use progs.Prelude.{
  zero, suc, ap, ◌*◌, ◌^◌, ◌-◌, ◌≤◌, ltb, ltb→lt, lt→ltb, bit_or, ℕ, ◌+◌, ◌/◌, ◌%◌, ◌<◌, ◌≡◌, ◌≢◌,
  refl, ◌∙◌, Bool, Bool-cases, inl, inr, true, false, ◌&&◌, arith, ◌==◌, if◌then◌else◌, is_set,
}
use progs.Prelude.Word.{word_size, u32, sub32}
use mathlib.Core.Path.{subst}
use progs.Util.{Target, get_bit, shl, asr, ror}
use progs.Util.Shift.{ror_lem, asr_positive, asr_negative, shr_narrow, shr_zero, ror_by_zero}
use progs.Memory.{Memory}
use progs.Core.{ArmCore, ok}
use progs.Core.RegisterFile.{reg_at, put, read-ok, write-ok}
use progs.LoadStore.{arm_load_store, ldr_ldrb, str_strb, shifted_offset}
use progs.LoadStore.Fields.{loads, rn_of, rd_of, stores_back}

-- Bit 25: the offset is a shifted register.
abbrev pub by_register : ℕ → Bool
by_register ins = is_set (ins / 33554432 % 2)

-- The word `r` shifted by `n`: LSL, LSR, ASR and ROR for `shift` 0 to 3. At `n` 0 an ASR of a negative
-- word, and a ROR, take in what the machine makes of a shift to the left by 32.
abbrev pub shifted_word : Target → (r shift n : ℕ) → ℕ
shifted_word t r shift n =
    if shift == 0
    then r * 2 ^ n % word_size
    else if shift == 1
    then r / 2 ^ n
    else if shift == 2
    then (if ltb r 2147483648
        then r / 2 ^ n
        else if n == 0
        then bit_or r (t.wide_shl 0xFFFFFFFF 32 % word_size)
        else (2 ^ n - 1) * 2 ^ (32 - n) + r / 2 ^ n)
    else if n == 0
    then bit_or r (t.wide_shl r 32 % word_size)
    else r % 2 ^ n * 2 ^ (32 - n) + r / 2 ^ n

asr-zero :
    (t : Target) (r : ℕ)
    → 2147483648 ≤ r
    → r < word_size
    → asr t r 0 ≡ bit_or r (t.wide_shl 0xFFFFFFFF 32 % word_size)
unfolding asr shl
asr-zero t r negative word =
    let top : is_set (get_bit r 31) ≡ true = ground arith in rw (top, shr_zero t r) refl

shl_narrow : (t : Target) (r n : ℕ) → n < 32 → shl t r n ≡ r * 2 ^ n % word_size
unfolding shl
shl_narrow t r n short = rw (lt→ltb n 32 short) refl

arithmetic : (t : Target) (r n : ℕ) → r < word_size → n < 32 → asr t r n ≡ shifted_word t r 2 n
arithmetic t r n word short = elim (Bool-cases (ltb r 2147483648)) [
  | inl small ↦ rw small (asr_positive t r n (ltb→lt r 2147483648 small) short)
  | inr large ↦ elim (Bool-cases (n == 0)) [
    | inl z ↦
        (let same : n ≡ 0 = ground arith in rw (large, same) (asr-zero t r (ground arith) word))
    | inr z ↦ rw (large, z) (asr_negative t r n (ground arith) word (ground arith) short)
  ]
]

rotation : (t : Target) (r n : ℕ) → r < word_size → n < 32 → ror t r n ≡ shifted_word t r 3 n
rotation t r n word short = elim (Bool-cases (n == 0)) [
  | inl z ↦ (let same : n ≡ 0 = ground arith in rw same (ror_by_zero t r))
  | inr z ↦ rw z (ror_lem t r n word (ground arith) short)
]

shifted_offset_lem :
    (t : Target) (r shift n : ℕ)
    → r < word_size
    → n < 32
    → shift < 4
    → shifted_offset t r shift n ≡ shifted_word t r shift n
unfolding shifted_offset
shifted_offset_lem t r zero n word short kind = shl_narrow t r n short
shifted_offset_lem t r (suc zero) n word short kind = shr_narrow t r n short
shifted_offset_lem t r (suc (suc zero)) n word short kind = arithmetic t r n word short
shifted_offset_lem t r (suc (suc (suc zero))) n word short kind = rotation t r n word short
shifted_offset_lem t r (suc (suc (suc (suc shift)))) n word short kind = absurd (omega arith)

abbrev pub offset_of : Target → ArmCore → ℕ → ℕ
offset_of t p ins =
    if by_register ins
    then shifted_word t (reg_at p (ins % 16)) (ins / 32 % 4) (ins / 128 % 32)
    else ins % 4096

abbrev moved_by : ArmCore → (ins offset : ℕ) → ℕ
moved_by p ins offset =
    let base = reg_at p (rn_of ins) in
    if is_set (ins / 8388608 % 2) then u32 (base + offset) else sub32 base offset

abbrev pub transfer_address : Target → ArmCore → ℕ → ℕ
transfer_address t p ins = moved_by p ins (offset_of t p ins)

-- Whether the base register becomes the address: after every load, and after a store at an immediate
-- offset that asks for it.
abbrev pub writes_base : ℕ → Bool
writes_base ins = if loads ins then true else if by_register ins then false else stores_back ins

-- A load of `v` or a store that leaves `m`, and what is written to the base register.
abbrev after_transfer :
    (load twice back : Bool) (p : ArmCore) (m : Memory) (rd rn a v : ℕ) → ArmCore
after_transfer load twice back p m rd rn a v =
    let loaded = put (put p rd v) rn a in
    let stored = record p { mem = m } in
    if load
    then (if twice then put loaded rn a else loaded)
    else if back
    then put stored rn a
    else stored

after_transfer_lem :
    (load twice back : Bool) (p : ArmCore) (m : Memory) (rd rn a v : ℕ)
    → rd ≢ 15
    → rn ≢ 15
    → (load ≡ true → back ≡ true)
    → let q = after_transfer load twice back p m rd rn a v in
      (q.mem ≡ (if load then p.mem else m))
      × (q.reg.cpsr ≡ p.reg.cpsr)
      × ((j : ℕ)
          → q.reg.regs j
            ≡ (if j == rn && back then a else if load && j == rd then v else p.reg.regs j))
after_transfer_lem true true back p m rd rn a v hd hn base =
    (ground arith, ground arith, λ j. ground (arith, base refl))
after_transfer_lem true false back p m rd rn a v hd hn base =
    (ground arith, ground arith, λ j. ground (arith, base refl))
after_transfer_lem false twice true p m rd rn a v hd hn base =
    (ground arith, ground arith, λ j. ground arith)
after_transfer_lem false twice false p m rd rn a v hd hn base = (refl, refl, λ j. ground arith)

-- A register that is shifted holds a word.
abbrev pub ShiftsWord : ArmCore → ℕ → Type 0
ShiftsWord p ins = by_register ins ≡ true → reg_at p (ins % 16) < word_size

module _ (t : Target) (p : ArmCore) (ins : ℕ) where
  -- The address as the code computes it.
  abbrev code_address : ℕ
  code_address = moved_by p ins (
      if by_register ins
      then shifted_offset t (reg_at p (ins % 16)) (ins / 32 % 4) (ins / 128 % 32)
      else ins % 4096)

  code_address_lem : ShiftsWord p ins → code_address ≡ transfer_address t p ins
  code_address_lem word = elim (Bool-cases (by_register ins)) [
    | inl e ↦ rw e (
        ap (moved_by p ins) (
          shifted_offset_lem t (reg_at p (ins % 16)) (ins / 32 % 4) (ins / 128 % 32) (word e)
            (omega arith) (omega arith)))
    | inr e ↦ rw e refl
  ]

  -- A load with P and W at an immediate offset writes the base register once more.
  abbrev writes_twice : Bool
  writes_twice =
      if by_register ins then false else is_set (ins / 16777216 % 2) && is_set (ins / 2097152 % 2)

  -- The transfer of a byte or a word: a load of `v`, or a store that leaves `m`.
  abbrev pub Loads : (a v : ℕ) → Type 0
  Loads a v =
      ldr_ldrb t (ins / 4194304 % 2) a (rd_of ins) (rn_of ins) p
      ≡ ok tt (put (put p (rd_of ins) v) (rn_of ins) a)

  abbrev pub Stores : (a : ℕ) → Memory → Type 0
  Stores a m = str_strb t (ins / 4194304 % 2) a (rd_of ins) p ≡ ok tt (record p { mem = m })

  load-done :
      (v : ℕ)
      → loads ins ≡ true
      → Loads code_address v
      → let a = code_address in
        let q = put (put p (rd_of ins) v) (rn_of ins) a in
        arm_load_store t ins p ≡ ok 0 (if writes_twice then put q (rn_of ins) a else q)
  unfolding arm_load_store
  load-done v load e = ground (
    arith,
    read-ok p (rn_of ins),
    read-ok p (ins % 16),
    e,
    write-ok (put (put p (rd_of ins) v) (rn_of ins) code_address) (rn_of ins) (omega arith)
        code_address,
  )

  store-done :
      (m : Memory)
      → loads ins ≡ false
      → Stores code_address m
      → let a = code_address in
        let q = record p { mem = m } in
        arm_load_store t ins p ≡ ok 0 (if writes_base ins then put q (rn_of ins) a else q)
  unfolding arm_load_store
  store-done m load e = ground (
    arith,
    read-ok p (rn_of ins),
    read-ok p (ins % 16),
    e,
    write-ok (record p { mem = m }) (rn_of ins) (omega arith) code_address,
  )

  pub transfer_address-lt : transfer_address t p ins < word_size
  transfer_address-lt = ground arith

  -- The core after a load of `v` or a store that leaves `m`, at the address `a`.
  abbrev transferred : (a : ℕ) → Memory → ℕ → ArmCore
  transferred a m v =
      after_transfer (loads ins) writes_twice (writes_base ins) p m (rd_of ins) (rn_of ins) a v

  -- What the code does, if the address is `a`.
  abbrev Runs : Memory → (v a : ℕ) → Type 0
  Runs m v a =
      (loads ins ≡ true → Loads a v)
      → (loads ins ≡ false → Stores a m)
      → arm_load_store t ins p ≡ ok 0 (transferred a m v)

  code-Runs : (m : Memory) (v : ℕ) → Runs m v code_address
  code-Runs m v load store = elim (Bool-cases (loads ins)) [
    | inl e ↦ load-done v e (load e) ∙ rw e refl
    | inr e ↦ store-done m e (store e) ∙ rw e refl
  ]

  pub transfer_lem :
      (m : Memory) (v : ℕ)
      → rd_of ins ≢ 15
      → rn_of ins ≢ 15
      → ShiftsWord p ins
      → (loads ins ≡ true → Loads (transfer_address t p ins) v)
      → (loads ins ≡ false → Stores (transfer_address t p ins) m)
      → (q : ArmCore) × (arm_load_store t ins p ≡ ok 0 q)
        × (q.mem ≡ (if loads ins then p.mem else m))
        × (q.reg.cpsr ≡ p.reg.cpsr)
        × ((j : ℕ)
            → q.reg.regs j ≡ (
                if j == rn_of ins && writes_base ins
                then transfer_address t p ins
                else if loads ins && j == rd_of ins
                then v
                else p.reg.regs j))
  transfer_lem m v hd hn word load store =
      let a = transfer_address t p ins in
      let (mem, cpsr, regs) =
        after_transfer_lem (loads ins) writes_twice (writes_base ins) p m (rd_of ins) (rn_of ins) a
          v hd hn (λ e. rw e refl) in
      (
        transferred a m v,
        subst (λ (x : ℕ). Runs m v x) (code_address_lem word) (code-Runs m v) load store,
        mem,
        cpsr,
        regs,
      )
