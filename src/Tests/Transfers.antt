-- ===== src/Tests/Transfers.antt =====
-- Tests of arm_load_store.c.
use progs.Prelude.{ℕ, ◌≡◌, ◌<◌, refl, true, false, inl, arith, ◌==◌, ◌&&◌, ◌/◌, if◌then◌else◌}
use progs.Core.{ArmCore, ok, ◌>>=◌}
use progs.LoadStore.Multiple.{count_bits}
use progs.Memory.Layout.{IsBytes, word_at, put_byte, put_word}
use progs.Instruction.{arm_step}
use progs.Instruction.SingleStep.{arm_step-word, arm_step-byte}
use progs.Instruction.TransferStep.{IsAt, fetched, arm_step-half, arm_step-ignored}
use progs.Memory.RoundTrip.{put_word-IsBytes}
use progs.Instruction.TwoSteps.{arm_step-arm_step}
use progs.Tests.{host, block, block-IsBytes, core}

abbrev p0 : ArmCore
p0 = core (block true 0x12 0x34 0x56 0x78)

-- The instruction of these bytes at the program counter.
abbrev at_start : (a b c d : ℕ) → ArmCore
at_start a b c d = core (block true a b c d)

at_start-IsBytes :
    (a b c d : ℕ) → a < 256 → b < 256 → c < 256 → d < 256 → IsBytes (at_start a b c d).mem
at_start-IsBytes a b c d = block-IsBytes true a b c d

IsAt-at_start :
    (a b c d : ℕ)
    → a < 256
    → b < 256
    → c < 256
    → d < 256
    → a / 16 ≡ 14
    → IsAt (at_start a b c d) (word_at (at_start a b c d).mem 0)
IsAt-at_start a b c d ha hb hc hd al = (
  omega arith,
  at_start-IsBytes a b c d ha hb hc hd,
  omega arith,
  refl,
  omega arith,
  refl,
  omega arith,
)

-- ldr r5, [r1, #-4]
abbrev ldr_word : ℕ
ldr_word = 0xE5115004

-- str r3, [r1, #8]
abbrev str_word : ℕ
str_word = 0xE5813008

-- ldr r5, [r1, #8]
abbrev ldr_back : ℕ
ldr_back = 0xE5915008

arm_step-word_example :
    (q : ArmCore) × (arm_step host (at_start 0xE5 0x11 0x50 0x04) ≡ ok 0 q)
    × (q.mem ≡ (at_start 0xE5 0x11 0x50 0x04).mem)
    × (q.reg.cpsr ≡ 4)
    × ((j : ℕ)
        → q.reg.regs j
          ≡ (if j == 1 && true then 0 else if true && j == 5 then ldr_word else p0.reg.regs j))
arm_step-word_example =
    arm_step-word host (at_start 0xE5 0x11 0x50 0x04) ldr_word
      (IsAt-at_start 0xE5 0x11 0x50 0x04 (omega arith) (omega arith) (omega arith) (omega arith)
        refl)
      refl refl (omega arith) (omega arith)
      (
        omega arith,
        at_start-IsBytes 0xE5 0x11 0x50 0x04 (omega arith) (omega arith) (omega arith)
            (omega arith),
        refl,
        omega arith,
        λ e. omega arith,
        λ e. omega arith,
      )

-- The store, and the load after it.
abbrev stored_and_loaded : ArmCore
stored_and_loaded = core (put_word (block true 0xE5 0x81 0x30 0x08) 4 ldr_back)

stored_and_loaded-IsBytes : IsBytes stored_and_loaded.mem
stored_and_loaded-IsBytes =
    put_word-IsBytes (block true 0xE5 0x81 0x30 0x08) 4 ldr_back (omega arith) (
      block-IsBytes true 0xE5 0x81 0x30 0x08 (omega arith) (omega arith) (omega arith)
        (omega arith))

arm_step-arm_step_example :
    (q : ArmCore) × ((arm_step host >>= λ _. arm_step host) stored_and_loaded ≡ ok 0 q)
    × (q.reg.regs 5 ≡ 12)
    × (q.reg.cpsr ≡ 8)
arm_step-arm_step_example =
    arm_step-arm_step host stored_and_loaded str_word ldr_back
      (omega arith, stored_and_loaded-IsBytes, omega arith, refl, omega arith, refl, refl)
      (omega arith, omega arith, refl, refl) (refl, refl, refl, omega arith, omega arith)
      (refl, refl, refl, omega arith, omega arith) refl refl refl refl refl refl (omega arith)
      (
        omega arith,
        stored_and_loaded-IsBytes,
        refl,
        omega arith,
        λ e. omega arith,
        λ e. omega arith,
      )
      (inl (omega arith))

fifteen_is_not_counted : count_bits 15 0x8003 ≡ 2
unfolding count_bits
fifteen_is_not_counted = refl

-- ldrh r5, [r0, #2]
abbrev ldrh_half : ℕ
ldrh_half = 0xE1D050B2

arm_step-half_example :
    (q : ArmCore) × (arm_step host (at_start 0xE1 0xD0 0x50 0xB2) ≡ ok 0 q)
    × (q.mem ≡ (at_start 0xE1 0xD0 0x50 0xB2).mem)
    × (q.reg.cpsr ≡ 4)
    × ((j : ℕ)
        → q.reg.regs j
          ≡ (if j == 0 && false then 2 else if true && j == 5 then 0x50B2 else p0.reg.regs j))
arm_step-half_example =
    arm_step-half host (at_start 0xE1 0xD0 0x50 0xB2) ldrh_half
      (IsAt-at_start 0xE1 0xD0 0x50 0xB2 (omega arith) (omega arith) (omega arith) (omega arith)
        refl)
      refl refl refl (omega arith) (omega arith)
      (
        omega arith,
        at_start-IsBytes 0xE1 0xD0 0x50 0xB2 (omega arith) (omega arith) (omega arith)
            (omega arith),
        inl refl,
        omega arith,
        omega arith,
      )

-- swi 0x123456
arm_step-ignored_example :
    arm_step host (at_start 0xEF 0x12 0x34 0x56) ≡ ok 0 (fetched (at_start 0xEF 0x12 0x34 0x56))
arm_step-ignored_example =
    arm_step-ignored host (at_start 0xEF 0x12 0x34 0x56) 0xEF123456
      (IsAt-at_start 0xEF 0x12 0x34 0x56 (omega arith) (omega arith) (omega arith) (omega arith)
        refl)
      (inl refl)

-- strb r3, [r1, r2, lsl #1]
abbrev strb_register : ℕ
strb_register = 0xE7C13082

arm_step-byte_example :
    (q : ArmCore) × (arm_step host (at_start 0xE7 0xC1 0x30 0x82) ≡ ok 0 q)
    × (q.mem ≡ put_byte (at_start 0xE7 0xC1 0x30 0x82).mem 20 12)
    × (q.reg.cpsr ≡ 4)
    × ((j : ℕ)
        → q.reg.regs j
          ≡ (if j == 1 && false then 20 else if false && j == 3 then 0 else p0.reg.regs j))
arm_step-byte_example =
    arm_step-byte host (at_start 0xE7 0xC1 0x30 0x82) strb_register
      (IsAt-at_start 0xE7 0xC1 0x30 0x82 (omega arith) (omega arith) (omega arith) (omega arith)
        refl)
      refl refl (omega arith) (omega arith)
      (
        omega arith,
        at_start-IsBytes 0xE7 0xC1 0x30 0x82 (omega arith) (omega arith) (omega arith)
            (omega arith),
        inl refl,
        omega arith,
        λ e. omega arith,
      )
