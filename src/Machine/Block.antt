-- ===== src/Machine/Block.antt =====
-- A straight run of data-processing instructions, without a comparison and without a branch.
use progs.Prelude.{
  ℕ, ◌+◌, ◌-◌, ◌*◌, ◌/◌, ◌%◌, ◌<◌, ◌≡◌, ◌≢◌, ◌⊎◌, refl, ap, ◌∙◌, false, arith, List, [], ◌∷◌,
}
use progs.Prelude.Word.{word_size}
use progs.Prelude.Lists.{length}
use progs.Util.{Target}
use progs.Memory.{Memory}
use progs.Memory.Outcome.{IsAllocated, Fits}
use progs.Memory.Layout.{word_at}
use progs.Core.{ArmCore, ok}
use progs.Core.RegisterFile.{reg_at, put}
use progs.Core.Typed.{IsTyped}
use progs.Instruction.{arm_step}
use progs.Instruction.Decode.{alu, is_comparison}
use progs.Instruction.Operand.{operand}
use progs.Instruction.DataStep.{processed, arm_step-data}
use progs.Instruction.TransferStep.{fetched}
use progs.Instruction.Typed.{arm_step-Typed}
use progs.Machine.Types.{ended}

-- A data-processing instruction whose condition is AL and which stores a result, not in register 15.
abbrev pub IsPlain : ℕ → Type 0
IsPlain mot =
    (mot / 268435456 ≡ 14)
    × (mot / 67108864 % 4 ≡ 0)
    × ((mot / 128 % 2 ≡ 0) ⊎ (mot / 16 % 2 ≡ 0))
    × (is_comparison (mot / 2097152 % 16) ≡ false)
    × (mot / 4096 % 16 ≢ 15)

-- The core after it: the fetch, and the table's result in the destination register.
abbrev pub computed : Target → (mot : ℕ) → ArmCore → ArmCore
computed t mot p =
    let q = fetched p in
    let rd = mot / 4096 % 16 in
    let c = (p.reg.cpsr + 4) / 536870912 % 2 in
    let so = operand t (reg_at q (mot % 4096 % 16)) rd (mot % 4096) (mot / 33554432 % 2) in
    put q rd (alu (mot / 2097152 % 16) (reg_at q (mot / 65536 % 16)) so c)

abbrev pub run_block : Target → List ℕ → ArmCore → ArmCore
run_block t [] p = p
run_block t (mot ∷ ws) p = run_block t ws (computed t mot p)

abbrev pub AllPlain : List ℕ → Type 0
AllPlain [] = Unit {0}
AllPlain (mot ∷ ws) = IsPlain mot × AllPlain ws

-- The words stand in the memory one after the other.
abbrev pub StandAt : Memory → (a : ℕ) → List ℕ → Type 0
StandAt m a [] = Unit {0}
StandAt m a (mot ∷ ws) = (word_at m a ≡ mot) × StandAt m (a + 4) ws

-- A core whose program counter is at a straight run of such words, inside the block.
abbrev pub IsBlock : ArmCore → List ℕ → Type 0
IsBlock p ws =
    IsAllocated p.mem
    × IsTyped p
    × (p.reg.cpsr % 4 ≡ 0)
    × (p.reg.cpsr + 4 * length ws < word_size - 4)
    × Fits p.mem p.reg.cpsr (4 * length ws)
    × StandAt p.mem p.reg.cpsr ws

put-pc : (p : ArmCore) (i v : ℕ) → i ≢ 15 → (put p i v).reg.cpsr ≡ p.reg.cpsr
put-pc p i v h = ground arith

module _ (t : Target) (mot : ℕ) (ws : List ℕ) (p : ArmCore) (plain : IsPlain mot)
    (block : IsBlock p (mot ∷ ws)) where
  pub step-computed : arm_step t p ≡ ok 0 (computed t mot p)
  step-computed =
      let (al, kind, shifter, stores, _) = plain in
      let (w, typed, aligned, small, fits, (here, _)) = block in
      let c = (p.reg.cpsr + 4) / 536870912 % 2 in
      arm_step-data t p w typed.1 (omega arith) aligned (omega arith) typed.0.0 (rw here al)
        (rw here kind) (rw here shifter)
      ∙ ap (λ (word : ℕ). processed t word c (fetched p)) here
      ∙ rw stores refl

  pub computed-IsBlock : IsBlock (computed t mot p) ws
  computed-IsBlock =
      let (w, typed, aligned, small, fits, (here, rest)) = block in
      let pc : (computed t mot p).reg.cpsr ≡ p.reg.cpsr + 4 =
        put-pc (fetched p) (mot / 4096 % 16) _ plain.4 in
      (
        w,
        ended _ (arm_step t p) 0 (computed t mot p) ((arm_step-Typed t).at p typed) step-computed,
        rw pc (omega arith),
        rw pc (omega arith),
        rw pc (omega arith),
        rw pc rest,
      )
