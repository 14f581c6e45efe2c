-- ===== src/Machine/Reference/Moves.antt =====
-- Loads and stores against those of the interpreter.
use progs.Prelude.{
  ℕ, ◌+◌, ◌*◌, ◌/◌, ◌%◌, ◌<◌, ◌≤◌, ltb, ◌!=◌, ◌≡◌, ◌≢◌, ap, ◌∙◌, Bool, true, ◌&&◌, arith, ◌==◌,
  if◌then◌else◌,
}
use progs.Prelude.Word.{word_size}
use progs.Util.{Target}
use progs.Memory.{Memory}
use progs.Memory.Outcome.{IsAllocated}
use progs.Memory.Layout.{ReversesHalves, word_at, half_at, put_word, put_byte, put_half}
use progs.Core.{ArmCore, Run, ok}
use progs.Core.RegisterFile.{reg_at, as_pc-lt}
use progs.Core.Typed.{IsTyped}
use progs.LoadStore.Fields.{loads, rd_of, rn_of, stores_back}
use progs.LoadStore.Addressing.{transfer_address, writes_base}
use progs.LoadStore.Word.{arm_load_store-word}
use progs.LoadStore.Byte.{arm_load_store-byte}
use progs.LoadStore.Half.{half_address, arm_load_store_h_lem}
use progs.Instruction.{select_execute_instruction}
use progs.Instruction.Frame.{select-Keeps}
use progs.Instruction.SingleStep.{select-transfer}
use progs.Instruction.TransferStep.{select-half}
use progs.Machine.Cycles.{ended}
use progs.Machine.Reference.{
  plain_registers, reverses, moves_word, moves_byte, moves_half, moved, moved_word, moved_byte,
  moved_half,
}

word_facts :
    (mot a size : ℕ)
    → (mot / 67108864 % 4 == 1
        && mot / 4194304 % 2 == 0
        && plain_registers mot
        && a % 4 == 0
        && ltb (a + 3) (4 * size))
      ≡ true
    → (mot / 67108864 % 4 ≡ 1)
      × (mot / 4194304 % 2 ≡ 0)
      × (rd_of mot ≢ 15)
      × (rn_of mot ≢ 15)
      × (a % 4 ≡ 0)
      × (a + 4 ≤ 4 * size)
word_facts mot a size kind =
    (ground arith, ground arith, ground arith, ground arith, ground arith, ground arith)

byte_facts :
    (mot a size : ℕ) (reversed : Bool)
    → (mot / 67108864 % 4 == 1
        && mot / 4194304 % 2 == 1
        && plain_registers mot
        && reversed
        && ltb a (4 * size))
      ≡ true
    → (mot / 67108864 % 4 ≡ 1)
      × (mot / 4194304 % 2 ≡ 1)
      × (rd_of mot ≢ 15)
      × (rn_of mot ≢ 15)
      × (reversed ≡ true)
      × (a + 1 ≤ 4 * size)
byte_facts mot a size reversed kind =
    (ground arith, ground arith, ground arith, ground arith, ground arith, ground arith)

half_facts :
    (mot a size : ℕ) (reversed : Bool)
    → (mot / 67108864 % 4 == 0
        && mot / 128 % 2 == 1
        && mot / 16 % 2 == 1
        && plain_registers mot
        && reversed
        && a % 4 != 3
        && ltb (a + 1) (4 * size))
      ≡ true
    → (mot / 67108864 % 4 ≡ 0)
      × (mot / 128 % 2 ≡ 1)
      × (mot / 16 % 2 ≡ 1)
      × (rd_of mot ≢ 15)
      × (rn_of mot ≢ 15)
      × (reversed ≡ true)
      × (a % 4 ≤ 2)
      × (a + 2 ≤ 4 * size)
half_facts mot a size reversed kind = (
  ground arith,
  ground arith,
  ground arith,
  ground arith,
  ground arith,
  ground arith,
  ground arith,
  ground arith,
)

reverses_lem : (t : Target) (q : ArmCore) → reverses t q ≡ true → ReversesHalves t q.mem
reverses_lem t q e = ground arith

reg_at-lt : (q : ArmCore) (i : ℕ) → i < 16 → IsTyped q → reg_at q i < word_size
reg_at-lt q i small typed = ground (arith, as_pc-lt q.reg.cpsr, typed.0.0 i)

-- Two cores with the same fields.
same_core :
    (p q : ArmCore)
    → p.cycle_count ≡ q.cycle_count
    → p.mem ≡ q.mem
    → p.reg.cpsr ≡ q.reg.cpsr
    → ((j : ℕ) → p.reg.regs j ≡ q.reg.regs j)
    → p ≡ q
same_core p q count mem cpsr regs i = record {
  cycle_count = count i;
  reg = record { regs = λ j. regs j i; cpsr = cpsr i };
  mem = mem i;
}

module _ (t : Target) (mot : ℕ) (q : ArmCore) (w : IsAllocated q.mem) (typed : IsTyped q) where
  abbrev executed : Run ℕ
  executed = select_execute_instruction t mot 0 0 0 0 q

  -- The fields of the core after a load or a store are all that it consists of.
  executed-moved :
      (back : Bool) (a v : ℕ) (m : Memory)
      → (q' : ArmCore) × (executed ≡ ok 0 q')
        × (q'.mem ≡ (if loads mot then q.mem else m))
        × (q'.reg.cpsr ≡ q.reg.cpsr)
        × ((j : ℕ)
            → q'.reg.regs j ≡ (
                if j == rn_of mot && back
                then a
                else if loads mot && j == rd_of mot
                then v
                else q.reg.regs j))
      → executed ≡ ok 0 (moved back mot a v m q)
  executed-moved back a v m (q', run, mem, cpsr, regs) =
      let (count, _, _) = ended q executed 0 q' ((select-Keeps t mot 0 0 0 0).at q) run in
      run ∙ ap (λ (p : ArmCore). ok 0 p) (same_core q' (moved back mot a v m q) count mem cpsr regs)

  pub executed-word : moves_word t mot q ≡ true → executed ≡ ok 0 (moved_word t mot q)
  executed-word kind =
      let a = transfer_address t q mot in
      let (load_store, word, hd, hn, aligned, fits) = word_facts mot a q.mem.size kind in
      let (q', run, mem, cpsr, regs) = arm_load_store-word t q mot word hd hn (
        w,
        typed.1,
        aligned,
        fits,
        λ e. reg_at-lt q (rd_of mot) (omega arith) typed,
        λ e. reg_at-lt q (mot % 16) (omega arith) typed,
      ) in
      executed-moved (writes_base mot) a (word_at q.mem a) (put_word q.mem a (reg_at q (rd_of mot)))
        (q', select-transfer t mot 0 0 0 0 q load_store ∙ run, mem, cpsr, regs)

  pub executed-byte : moves_byte t mot q ≡ true → executed ≡ ok 0 (moved_byte t mot q)
  executed-byte kind =
      let a = transfer_address t q mot in
      let (load_store, byte, hd, hn, reversed, fits) =
        byte_facts mot a q.mem.size (reverses t q) kind in
      let (q', run, mem, cpsr, regs) = arm_load_store-byte t q mot byte hd hn (
        w,
        typed.1,
        reverses_lem t q reversed,
        fits,
        λ e. reg_at-lt q (mot % 16) (omega arith) typed,
      ) in
      executed-moved (writes_base mot) a (q.mem.memo a)
        (put_byte q.mem a (reg_at q (rd_of mot) % 256))
        (q', select-transfer t mot 0 0 0 0 q load_store ∙ run, mem, cpsr, regs)

  pub executed-half : moves_half t mot q ≡ true → executed ≡ ok 0 (moved_half mot q)
  executed-half kind =
      let a = half_address q mot in
      let (class0, seven, four, hd, hn, reversed, inside, fits) =
        half_facts mot a q.mem.size (reverses t q) kind in
      let (q', run, mem, cpsr, regs) =
        arm_load_store_h_lem t q mot hd hn (w, typed.1, reverses_lem t q reversed, inside, fits) in
      executed-moved (stores_back mot) a (half_at q.mem a)
        (put_half q.mem a (reg_at q (rd_of mot) % 65536))
        (q', select-half t mot 0 0 0 0 q class0 seven four ∙ run, mem, cpsr, regs)
