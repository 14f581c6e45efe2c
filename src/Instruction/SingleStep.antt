-- ===== src/Instruction/SingleStep.antt =====
-- A whole step that executes LDR, STR, LDRB or STRB.
use progs.Prelude.{ℕ, ◌+◌, ◌/◌, ◌%◌, ◌≡◌, ◌≢◌, ◌∙◌, ◌&&◌, ◌==◌, if◌then◌else◌, arith}
use progs.Util.{Target}
use progs.Memory.Layout.{put_byte, put_word, word_at}
use progs.Core.{ArmCore, ok}
use progs.Core.RegisterFile.{reg_at}
use progs.LoadStore.{arm_load_store}
use progs.LoadStore.Fields.{loads, rn_of, rd_of}
use progs.LoadStore.Addressing.{transfer_address, writes_base}
use progs.LoadStore.Byte.{IsBytePlace, arm_load_store-byte}
use progs.LoadStore.Word.{IsWordPlace, arm_load_store-word}
use progs.Instruction.{select_execute_instruction, arm_step}
use progs.Instruction.TransferStep.{IsAt, fetched, step-zero}

pub select-transfer :
    (t : Target) (mot n z v c : ℕ) (q : ArmCore)
    → mot / 67108864 % 4 ≡ 1
    → select_execute_instruction t mot n z v c q ≡ arm_load_store t mot q
unfolding select_execute_instruction
select-transfer t mot n z v c q kind = ground arith

-- A whole step at LDR or STR of a word, whose condition is AL, at an aligned address inside the block:
-- it returns 0 and advances the program counter by 4. The address is the base plus or minus an offset,
-- modulo 2 ^ 32: a field of 12 bits, or the word of a register shifted by LSL, LSR, ASR or ROR. A
-- load puts the word at the address into its register and changes no byte; a store puts the word
-- of its register at the address. The base register becomes the address after every load, and
-- after a store at an immediate offset if P is clear or W is set; it then wins over a load into the
-- same register. No other register changes, and neither the base nor the register that moves is
-- register 15.
pub arm_step-word :
    (t : Target) (p : ArmCore) (mot : ℕ)
    → IsAt p mot
    → mot / 67108864 % 4 ≡ 1
    → mot / 4194304 % 2 ≡ 0
    → rd_of mot ≢ 15
    → rn_of mot ≢ 15
    → IsWordPlace t (fetched p) mot
    → let a = transfer_address t (fetched p) mot in
      (q : ArmCore) × (arm_step t p ≡ ok 0 q)
      × (q.mem ≡ (if loads mot then p.mem else put_word p.mem a (reg_at (fetched p) (rd_of mot))))
      × (q.reg.cpsr ≡ p.reg.cpsr + 4)
      × ((j : ℕ)
          → q.reg.regs j ≡ (
              if j == rn_of mot && writes_base mot
              then a
              else if loads mot && j == rd_of mot
              then word_at p.mem a
              else p.reg.regs j))
arm_step-word t p mot at kind bit hd hn place =
    let (q, run, mem, cpsr, regs) = arm_load_store-word t (fetched p) mot bit hd hn place in
    (
      q,
      step-zero t p mot at q λ n z v c. select-transfer t mot n z v c (fetched p) kind ∙ run,
      mem,
      cpsr,
      regs,
    )

-- A whole step at LDRB or STRB, whose condition is AL, at an address inside the block, on a
-- little-endian host or in big-endian memory: it returns 0 and advances the program counter by 4.
-- The address is the base plus or minus an offset, modulo 2 ^ 32: a field of 12 bits, or the word of
-- a register shifted by LSL, LSR, ASR or ROR. A load puts the byte at the address into its register
-- and changes no byte; a store puts the low byte of its register at the address. The base register
-- becomes the address after every load, and after a store at an immediate offset if P is clear or W
-- is set; it then wins over a load into the same register. No other register changes, and neither
-- the base nor the register that moves is register 15.
pub arm_step-byte :
    (t : Target) (p : ArmCore) (mot : ℕ)
    → IsAt p mot
    → mot / 67108864 % 4 ≡ 1
    → mot / 4194304 % 2 ≡ 1
    → rd_of mot ≢ 15
    → rn_of mot ≢ 15
    → IsBytePlace t (fetched p) mot
    → let a = transfer_address t (fetched p) mot in
      (q : ArmCore) × (arm_step t p ≡ ok 0 q)
      × (q.mem
          ≡ (if loads mot then p.mem else put_byte p.mem a (reg_at (fetched p) (rd_of mot) % 256)))
      × (q.reg.cpsr ≡ p.reg.cpsr + 4)
      × ((j : ℕ)
          → q.reg.regs j ≡ (
              if j == rn_of mot && writes_base mot
              then a
              else if loads mot && j == rd_of mot
              then p.mem.memo a
              else p.reg.regs j))
arm_step-byte t p mot at kind bit hd hn place =
    let (q, run, mem, cpsr, regs) = arm_load_store-byte t (fetched p) mot bit hd hn place in
    (
      q,
      step-zero t p mot at q λ n z v c. select-transfer t mot n z v c (fetched p) kind ∙ run,
      mem,
      cpsr,
      regs,
    )
