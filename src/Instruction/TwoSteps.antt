-- ===== src/Instruction/TwoSteps.antt =====
-- Two steps: a word is stored and loaded again.
use progs.Prelude.{
  ℕ, ◌+◌, ◌/◌, ◌%◌, ◌≤◌, ◌<◌, ◌≡◌, ◌≢◌, ◌⊎◌, refl, sym, ap, ◌∙◌, ◌&&◌, Bool, ◌==◌, if◌then◌else◌,
  arith, false, true, is_set, ◌-◌,
}
use progs.Prelude.Word.{word_size, u32, sub32}
use progs.Util.{Target}
use progs.Memory.{Memory}
use progs.Memory.Outcome.{Fits}
use progs.Memory.Layout.{put_word, word_at}
use progs.Memory.RoundTrip.{put_word-IsBytes, word_at-put_word}
use progs.Core.{ArmCore, ok, ◌>>=◌}
use progs.Core.RegisterFile.{reg_at}
use progs.LoadStore.Fields.{loads, rn_of, rd_of}
use progs.LoadStore.Addressing.{transfer_address, writes_base, by_register, offset_of}
use progs.LoadStore.Word.{IsWordPlace}
use progs.Instruction.{arm_step}
use progs.Instruction.TransferStep.{IsAt, fetched}
use progs.Instruction.SingleStep.{arm_step-word}

-- A word at `b` that does not overlap the word stored at `a`.
word_at-put_word_apart :
    (m : Memory) (a b v : ℕ) → (b + 4 ≤ a) ⊎ (a + 4 ≤ b) → word_at (put_word m a v) b ≡ word_at m b
word_at-put_word_apart m a b v apart = ground arith

-- An instruction that is after the one at the program counter.
abbrev pub IsNext : ArmCore → (mot : ℕ) → Type 0
IsNext p mot =
    (p.reg.cpsr + 4 < word_size - 8)
    × Fits p.mem (p.reg.cpsr + 4) 4
    × (word_at p.mem (p.reg.cpsr + 4) ≡ mot)
    × (mot / 268435456 ≡ 14)

after_store-IsAt :
    (p q : ArmCore) (store load a v : ℕ)
    → IsAt p store
    → IsNext p load
    → v < word_size
    → (p.reg.cpsr + 8 ≤ a) ⊎ (a + 4 ≤ p.reg.cpsr + 4)
    → q.mem ≡ put_word p.mem a v
    → q.reg.cpsr ≡ p.reg.cpsr + 4
    → IsAt q load
after_store-IsAt p q store load a v at (small, fits, here, al) hv apart mem cpsr =
    let (w, bytes, _, aligned, _, _, _) = at in
    let far : (p.reg.cpsr + 4 + 4 ≤ a) ⊎ (a + 4 ≤ p.reg.cpsr + 4) = ground arith in
    let there : word_at q.mem q.reg.cpsr ≡ load =
      ap (λ (m : Memory). word_at m q.reg.cpsr) mem
      ∙ ap (λ (c : ℕ). word_at (put_word p.mem a v) c) cpsr
      ∙ word_at-put_word_apart p.mem a (p.reg.cpsr + 4) v far
      ∙ here in
    (
      rw mem w,
      rw mem (put_word-IsBytes p.mem a v hv bytes),
      omega arith,
      omega arith,
      rw mem (rw cpsr fits),
      there,
      al,
    )

-- LDR or STR of a word at an immediate offset, whose registers are not register 15.
abbrev pub IsImmediate : ℕ → Type 0
IsImmediate mot =
    (mot / 67108864 % 4 ≡ 1)
    × (mot / 4194304 % 2 ≡ 0)
    × (by_register mot ≡ false)
    × (rd_of mot ≢ 15)
    × (rn_of mot ≢ 15)

other_than_pc : (p : ArmCore) (i : ℕ) → i ≢ 15 → reg_at p i ≡ p.reg.regs i
other_than_pc p i h = ground arith

abbrev added : (up base offset : ℕ) → ℕ
added up base offset = if is_set up then u32 (base + offset) else sub32 base offset

immediate_offset :
    (t : Target) (p : ArmCore) (mot : ℕ) → by_register mot ≡ false → offset_of t p mot ≡ mot % 4096
immediate_offset t p mot il = rw il refl

same_address :
    (t : Target) (p r : ArmCore) (store load : ℕ)
    → by_register store ≡ false
    → by_register load ≡ false
    → rn_of store ≢ 15
    → rn_of load ≡ rn_of store
    → load / 8388608 % 2 ≡ store / 8388608 % 2
    → load % 4096 ≡ store % 4096
    → r.reg.regs (rn_of store) ≡ p.reg.regs (rn_of store)
    → transfer_address t (fetched r) load ≡ transfer_address t (fetched p) store
same_address t p r store load is il ns base up offset kept =
    let same_base : reg_at (fetched r) (rn_of load) ≡ reg_at (fetched p) (rn_of store) =
      ap (reg_at (fetched r)) base
      ∙ other_than_pc (fetched r) (rn_of store) ns
      ∙ kept
      ∙ sym (other_than_pc (fetched p) (rn_of store) ns) in
    let same_offset : offset_of t (fetched r) load ≡ offset_of t (fetched p) store =
      immediate_offset t (fetched r) load il
      ∙ offset
      ∙ sym (immediate_offset t (fetched p) store is) in
    ap (λ (u : ℕ). added u (reg_at (fetched r) (rn_of load)) (offset_of t (fetched r) load)) up
    ∙ ap (λ (b : ℕ). added (store / 8388608 % 2) b (offset_of t (fetched r) load)) same_base
    ∙ ap (added (store / 8388608 % 2) (reg_at (fetched p) (rn_of store))) same_offset

never_both : (b : Bool) (n : ℕ) → b ≡ true → b ≡ false → n < word_size
never_both b n load store = ground arith

module _ (i rn rd : ℕ) (back load : Bool) (x y z : ℕ) where
  untouched :
      back ≡ false
      → load ≡ false
      → (if i == rn && back then x else if load && i == rd then y else z) ≡ z
  untouched b l = ground arith

  loaded :
      i ≡ rd
      → i ≢ rn
      → load ≡ true
      → (if i == rn && back then x else if load && i == rd then y else z) ≡ y
  loaded e apart l = ground arith

-- Two whole steps at STR and LDR of a word, one after the other in the block, whose conditions are AL,
-- with the same base register, immediate offset and U bit, to an aligned address inside the block
-- that does not overlap the second instruction; the store does not ask for write-back (P set, W
-- clear), no register is 15, and the loaded register is not the base register. Both return 0, the
-- loaded register holds what the stored one held, and the program counter is 8 further on.
pub arm_step-arm_step :
    (t : Target) (p : ArmCore) (store load : ℕ)
    → IsAt p store
    → IsNext p load
    → IsImmediate store
    → IsImmediate load
    → loads store ≡ false
    → loads load ≡ true
    → writes_base store ≡ false
    → rn_of load ≡ rn_of store
    → load / 8388608 % 2 ≡ store / 8388608 % 2
    → load % 4096 ≡ store % 4096
    → rd_of load ≢ rn_of load
    → IsWordPlace t (fetched p) store
    → (let a = transfer_address t (fetched p) store in
        (p.reg.cpsr + 8 ≤ a) ⊎ (a + 4 ≤ p.reg.cpsr + 4))
    → (q : ArmCore) × ((arm_step t >>= λ _. arm_step t) p ≡ ok 0 q)
      × (q.reg.regs (rd_of load) ≡ p.reg.regs (rd_of store))
      × (q.reg.cpsr ≡ p.reg.cpsr + 8)
arm_step-arm_step t p store load at next (ks, bs, is, ds, ns) (kl, bl, il, dl, nl) st ld keep base
      up offset apart place far =
    let a = transfer_address t (fetched p) store in
    let v = reg_at (fetched p) (rd_of store) in
    let (w, bytes, aligned, fits, word, _) = place in
    let (r, first, mem_r, cpsr_r, regs_r) = arm_step-word t p store at ks bs ds ns place in
    let mem : r.mem ≡ put_word p.mem a v = mem_r ∙ rw st refl in
    let kept : (j : ℕ) → r.reg.regs j ≡ p.reg.regs j = λ j.
      regs_r j
      ∙ untouched j (rn_of store) (rd_of store) (writes_base store) (loads store) _ _ _ keep st in
    let same : transfer_address t (fetched r) load ≡ a =
      same_address t p r store load is il ns base up offset (kept (rn_of store)) in
    let at' = after_store-IsAt p r store load a v at next (word st) far mem cpsr_r in
    let place' : IsWordPlace t (fetched r) load = (
      rw mem w,
      rw mem (put_word-IsBytes p.mem a v (word st) bytes),
      rw same aligned,
      rw same (rw mem fits),
      never_both (loads load) _ ld,
      λ shifts. never_both (by_register load) _ shifts il,
    ) in
    let (q, second, mem_q, cpsr_q, regs_q) = arm_step-word t r load at' kl bl dl nl place' in
    let value : word_at r.mem (transfer_address t (fetched r) load) ≡ v =
      rw same (rw mem (word_at-put_word p.mem a v (word st))) in
    let plain : v ≡ p.reg.regs (rd_of store) = other_than_pc (fetched p) (rd_of store) ds in
    (
      q,
      rw first second,
      regs_q (rd_of load)
          ∙ loaded (rd_of load) (rn_of load) (rd_of load) (writes_base load) (loads load) _ _ _ refl
              apart ld
          ∙ value
          ∙ plain,
      omega (arith, cpsr_q, cpsr_r),
    )
