-- ===== src/Instruction/TransferStep.antt =====
-- A whole step that executes LDRH or STRH, or an instruction that is ignored.
use progs.Prelude.{
  ℕ, ◌+◌, ◌-◌, ◌/◌, ◌%◌, ◌<◌, ◌≡◌, ◌≢◌, ◌⊎◌, ap, ◌∙◌, inl, inr, ◌&&◌, some, arith, ◌==◌,
  if◌then◌else◌,
}
use progs.Prelude.Word.{word_size, u32}
use progs.Util.{Target}
use progs.Memory.Outcome.{IsAllocated, Fits}
use progs.Memory.Layout.{IsBytes, word_at, half_at, put_half}
use progs.Core.{ArmCore, Run, ok, and_then}
use progs.Core.RegisterFile.{reg_at}
use progs.Core.Fetch.{arm_fetch_lem}
use progs.LoadStore.{arm_load_store_h}
use progs.LoadStore.Fields.{loads, rn_of, rd_of, stores_back}
use progs.LoadStore.Half.{IsHalfPlace, half_address, arm_load_store_h_lem}
use progs.Branch.{arm_branch}
use progs.Instruction.{traitement_br, select_execute_instruction, arm_step}
use progs.Instruction.Step.{concluded, step-passed}
use progs.Instruction.Branching.{always}

-- The program counter is aligned inside the memory block, at the word `mot`, whose condition is AL.
abbrev pub IsAt : ArmCore → (mot : ℕ) → Type 0
IsAt p mot =
    IsAllocated p.mem
    × IsBytes p.mem
    × (p.reg.cpsr < word_size - 8)
    × (p.reg.cpsr % 4 ≡ 0)
    × Fits p.mem p.reg.cpsr 4
    × (word_at p.mem p.reg.cpsr ≡ mot)
    × (mot / 268435456 ≡ 14)

-- The core after the fetch.
abbrev pub fetched : ArmCore → ArmCore
fetched p = record p {
  cycle_count = u32 (p.cycle_count + 1);
  reg = record (p.reg) { cpsr = p.reg.cpsr + 4 };
}

pub select-half :
    (t : Target) (mot n z v c : ℕ) (q : ArmCore)
    → mot / 67108864 % 4 ≡ 0
    → mot / 128 % 2 ≡ 1
    → mot / 16 % 2 ≡ 1
    → select_execute_instruction t mot n z v c q ≡ arm_load_store_h t mot q
unfolding select_execute_instruction
select-half t mot n z v c q kind seven four = ground arith

-- SWI and the coprocessor instructions, whose class is 3, and LDM and STM, of class 2 with bit 25 clear.
abbrev pub IsIgnored : ℕ → Type 0
IsIgnored mot = (mot / 67108864 % 4 ≡ 3) ⊎ ((mot / 67108864 % 4 ≡ 2) × (mot / 33554432 % 2 ≡ 0))

pub select-ignored :
    (t : Target) (mot n z v c : ℕ) (q : ArmCore)
    → IsIgnored mot
    → select_execute_instruction t mot n z v c q ≡ ok 0 q
unfolding select_execute_instruction traitement_br arm_branch
select-ignored t mot n z v c q (inl kind) = ground arith
select-ignored t mot n z v c q (inr (kind, clear)) = ground arith

module _ (t : Target) (p : ArmCore) (mot : ℕ) (at : IsAt p mot) where
  -- A step whose instruction returns 0.
  pub step-zero :
      (q : ArmCore)
      → ((n z v c : ℕ) → select_execute_instruction t mot n z v c (fetched p) ≡ ok 0 q)
      → arm_step t p ≡ ok 0 q
  step-zero q run =
      let (w, bytes, small, aligned, fits, here, al) = at in
      step-passed t p (fetched p) (some mot)
        (arm_fetch_lem t p w bytes (omega arith) aligned fits
          ∙ ap (λ (word : ℕ). ok (some word) (fetched p)) here)
        (always (p.reg.cpsr + 4) mot al)
      ∙ ap (λ (r : Run ℕ). and_then r concluded) (run _ _ _ _)

-- A whole step at LDRH or STRH, whose condition is AL, at an immediate or a register offset, inside
-- the block and at an address whose two low bits are not 3, on a little-endian host or in
-- big-endian memory: it returns 0 and advances the program counter by 4. A load puts the half at
-- the address into its register and changes no byte; a store puts the low half of its register at
-- the address. The base register becomes the address if P is clear or W is set, and then wins over
-- a load into the same register. No other register or byte changes.
pub arm_step-half :
    (t : Target) (p : ArmCore) (mot : ℕ)
    → IsAt p mot
    → mot / 67108864 % 4 ≡ 0
    → mot / 128 % 2 ≡ 1
    → mot / 16 % 2 ≡ 1
    → rd_of mot ≢ 15
    → rn_of mot ≢ 15
    → IsHalfPlace t (fetched p) mot
    → (q : ArmCore) × (arm_step t p ≡ ok 0 q)
      × (q.mem ≡ (
          if loads mot
          then p.mem
          else put_half p.mem
              (half_address (fetched p) mot)
              (reg_at (fetched p) (rd_of mot) % 65536)))
      × (q.reg.cpsr ≡ p.reg.cpsr + 4)
      × ((j : ℕ)
          → q.reg.regs j ≡ (
              if j == rn_of mot && stores_back mot
              then half_address (fetched p) mot
              else if loads mot && j == rd_of mot
              then half_at p.mem (half_address (fetched p) mot)
              else p.reg.regs j))
arm_step-half t p mot at kind seven four hd hn place =
    let (q, run, mem, cpsr, regs) = arm_load_store_h_lem t (fetched p) mot hd hn place in
    (
      q,
      step-zero t p mot at q λ n z v c. select-half t mot n z v c (fetched p) kind seven four ∙ run,
      mem,
      cpsr,
      regs,
    )

-- A whole step at SWI, at a coprocessor instruction, or at LDM or STM, whose condition is AL: it returns
-- 0 and changes nothing but the program counter and the cycle count.
pub arm_step-ignored :
    (t : Target) (p : ArmCore) (mot : ℕ)
    → IsAt p mot
    → IsIgnored mot
    → arm_step t p ≡ ok 0 (fetched p)
arm_step-ignored t p mot at kind =
    step-zero t p mot at (fetched p) λ n z v c. select-ignored t mot n z v c (fetched p) kind
