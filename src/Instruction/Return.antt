-- ===== src/Instruction/Return.antt =====
-- Two steps: a call with BL, and the return with MOV pc, lr.
use progs.Prelude.{ℕ, ◌+◌, ◌-◌, ◌/◌, ◌%◌, ◌<◌, ◌≡◌, ◌≢◌, refl, inl, ap, ◌∙◌, true, arith, is_set}
use progs.Prelude.Word.{word_size, u32}
use progs.Util.{Target}
use progs.Memory.Outcome.{IsAllocated, Fits}
use progs.Memory.Layout.{IsBytes, word_at}
use progs.Core.{ArmCore, ok, ◌>>=◌}
use progs.Branch.Offset.{branch_target}
use progs.Instruction.{arm_step}
use progs.Instruction.Branching.{jumped, arm_step-branch}
use progs.Instruction.DataStep.{processed, arm_step-data}

-- MOV pc, lr
abbrev pub mov_pc_lr : ℕ
mov_pc_lr = 0xE1A0F00E

-- The core after a return that is fetched by `p`.
abbrev pub returned : ArmCore → ArmCore
returned p = record p {
  cycle_count = u32 (p.cycle_count + 1);
  reg = record (p.reg) { cpsr = p.reg.regs 14 % 256 };
}

processed-mov_pc_lr :
    (t : Target) (c : ℕ) (p : ArmCore)
    → processed t mov_pc_lr c (record p {
      cycle_count = u32 (p.cycle_count + 1);
      reg = record (p.reg) { cpsr = p.reg.cpsr + 4 };
    })
      ≡ ok 0 (returned p)
processed-mov_pc_lr t c p = refl

-- A core whose memory and registers are of their types, at a BL with the condition AL whose target, a
-- multiple of 4 inside the block too, is a MOV pc, lr.
abbrev pub IsCall : ArmCore → (mot : ℕ) → Type 0
IsCall p mot =
    let a = p.reg.cpsr in
    let b = branch_target a mot in
    (IsAllocated p.mem × IsBytes p.mem × ((i : ℕ) → i < 15 → p.reg.regs i < word_size))
    × ((a < word_size - 8)
        × (a % 4 ≡ 0)
        × Fits p.mem a 4
        × (word_at p.mem a ≡ mot)
        × (mot / 16777216 ≡ 235))
    × ((b < word_size - 8) × (b % 4 ≡ 0) × Fits p.mem b 4 × (word_at p.mem b ≡ mov_pc_lr))

linked : (p : ArmCore) (a mot : ℕ) → mot / 16777216 ≡ 235 → (jumped p a mot).reg.regs 14 ≡ a + 8
linked p a mot kind = let link : is_set (mot / 16777216 % 2) ≡ true = ground arith in rw link refl

jumped-words :
    (p : ArmCore) (a mot : ℕ)
    → a < word_size - 8
    → ((i : ℕ) → i < 15 → p.reg.regs i < word_size)
    → (i : ℕ) → i < 15
    → (jumped p a mot).reg.regs i < word_size
jumped-words p a mot small words i h = ground (arith, words i h)

-- A call and a return, with BL and MOV pc, lr, both with the condition AL and inside the block: both
-- steps return 0 and keep the memory, and the program counter ends up at the low byte of the
-- address of the second instruction after the call, where the instruction after the call should
-- be executed next.
pub arm_step-return :
    (t : Target) (p : ArmCore) (mot : ℕ)
    → IsCall p mot
    → (q : ArmCore) × ((arm_step t >>= λ _. arm_step t) p ≡ ok 0 q)
      × (q.mem ≡ p.mem)
      × (q.reg.cpsr ≡ (p.reg.cpsr + 8) % 256)
      × ((i : ℕ) → i ≢ 14 → q.reg.regs i ≡ p.reg.regs i)
arm_step-return t p mot
      ((w, bytes, words), (small, aligned, fits, here, kind), (small', aligned', fits', there)) =
    let a = p.reg.cpsr in
    let q = jumped p a mot in
    let call : arm_step t p ≡ ok 0 q =
      arm_step-branch t p w bytes small aligned fits (rw here (omega arith)) (rw here (omega arith))
      ∙ ap (λ (word : ℕ). ok 0 (jumped p a word)) here in
    let back : arm_step t q ≡ ok 0 (returned q) =
      arm_step-data t q w bytes small' aligned' fits' (jumped-words p a mot small words)
        (rw there refl) (rw there refl) (rw there (inl refl))
      ∙ ap
          (λ (word : ℕ). processed t word ((q.reg.cpsr + 4) / 536870912 % 2) (record q {
            cycle_count = u32 (q.cycle_count + 1);
            reg = record (q.reg) { cpsr = q.reg.cpsr + 4 };
          }))
          there
      ∙ processed-mov_pc_lr t ((q.reg.cpsr + 4) / 536870912 % 2) q in
    (
      returned q,
      rw (call, back) refl,
      refl,
      ap (λ (v : ℕ). v % 256) (linked p a mot kind),
      λ i other. ground (arith, other),
    )
