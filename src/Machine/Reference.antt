-- ===== src/Machine/Reference.antt =====
-- arm_instruction.c: an interpreter for programs, on the state of the code, put together from the tables
-- of the instructions, of the shifter operand and of the transfers. Where the code leaves the
-- architecture the tables say what the code does: the result of SBC and RSC, and shifted operands.
pub mod Moves
pub mod Steps
pub mod Runs
use progs.Prelude.{
  ℕ, zero, suc, ◌+◌, ◌-◌, ◌*◌, ◌/◌, ◌%◌, Bool, true, ◌&&◌, ◌||◌, ◌==◌, ◌!=◌, ltb, if◌then◌else◌,
  is_set, Option, none, some,
}
use progs.Prelude.Word.{word_size}
use progs.Util.{Target}
use progs.Memory.Layout.{word_at, half_at, put_word, put_byte, put_half}
use progs.Branch.Offset.{branch_target}
use progs.Core.{ArmCore}
use progs.Core.RegisterFile.{reg_at, put}
use progs.Exception.Reset.{restarted}
use progs.LoadStore.Fields.{loads, rn_of, rd_of, stores_back}
use progs.LoadStore.Addressing.{transfer_address, writes_base}
use progs.LoadStore.Half.{half_address}
use progs.Memory.{Memory}
use progs.Instruction.Decode.{alu, is_comparison}
use progs.Instruction.Operand.{operand}
use progs.Instruction.Outcome.{runs_without_flags}
use progs.Instruction.TransferStep.{fetched}

-- Bits 27 to 25 are 101.
abbrev pub is_branch : ℕ → Bool
is_branch mot = mot / 33554432 % 8 == 5

-- `q` is the core after the fetch, here and below.
abbrev pub branches : (mot : ℕ) → ArmCore → ArmCore
branches mot q =
    let a = q.reg.cpsr - 4 in
    let linked = if is_set (mot / 16777216 % 2) then put q 14 (a + 8) else q in
    put linked 15 (branch_target a mot)

-- SWI, the coprocessor instructions, LDM and STM.
abbrev pub is_ignored : ℕ → Bool
is_ignored mot = mot / 67108864 % 4 == 3 || mot / 33554432 % 8 == 4

-- A data-processing instruction that stores a result.
abbrev pub computes : ℕ → Bool
computes mot =
    mot / 67108864 % 4 == 0
    && (mot / 128 % 2 == 0 || mot / 16 % 2 == 0)
    && (ltb (mot / 2097152 % 16) 8 || ltb 11 (mot / 2097152 % 16))

-- The table's result in the destination register; the carry that goes in is 0.
abbrev pub computed : Target → (mot : ℕ) → ArmCore → ArmCore
computed t mot q =
    let rd = mot / 4096 % 16 in
    let so = operand t (reg_at q (mot % 4096 % 16)) rd (mot % 4096) (mot / 33554432 % 2) in
    put q rd (alu (mot / 2097152 % 16) (reg_at q (mot / 65536 % 16)) so 0)

-- Neither the base nor the register that moves is register 15.
abbrev pub plain_registers : ℕ → Bool
plain_registers mot = rd_of mot != 15 && rn_of mot != 15

-- On such a host, or in such a memory, bytes and halves are where they belong.
abbrev pub reverses : Target → ArmCore → Bool
reverses t q = if t.host_big_endian then q.mem.is_big_endian else true

-- LDR or STR of a word at an aligned address inside the block.
abbrev pub moves_word : Target → (mot : ℕ) → ArmCore → Bool
moves_word t mot q =
    let a = transfer_address t q mot in
    mot / 67108864 % 4 == 1
    && mot / 4194304 % 2 == 0
    && plain_registers mot
    && a % 4 == 0
    && ltb (a + 3) (4 * q.mem.size)

-- LDRB or STRB inside the block.
abbrev pub moves_byte : Target → (mot : ℕ) → ArmCore → Bool
moves_byte t mot q =
    mot / 67108864 % 4 == 1
    && mot / 4194304 % 2 == 1
    && plain_registers mot
    && reverses t q
    && ltb (transfer_address t q mot) (4 * q.mem.size)

-- LDRH or STRH inside a word of the block.
abbrev pub moves_half : Target → (mot : ℕ) → ArmCore → Bool
moves_half t mot q =
    let a = half_address q mot in
    mot / 67108864 % 4 == 0
    && mot / 128 % 2 == 1
    && mot / 16 % 2 == 1
    && plain_registers mot
    && reverses t q
    && a % 4 != 3
    && ltb (a + 1) (4 * q.mem.size)

-- After a load of `v`, or a store that leaves `m`, at the address `a`.
abbrev pub moved : (back : Bool) (mot a v : ℕ) → Memory → ArmCore → ArmCore
moved back mot a v m q = record q {
  reg = record (q.reg) {
    regs = λ j.
        if j == rn_of mot && back
        then a
        else if loads mot && j == rd_of mot
        then v
        else q.reg.regs j;
  };
  mem = if loads mot then q.mem else m;
}

abbrev pub moved_word : Target → (mot : ℕ) → ArmCore → ArmCore
moved_word t mot q =
    let a = transfer_address t q mot in
    moved (writes_base mot) mot a (word_at q.mem a) (put_word q.mem a (reg_at q (rd_of mot))) q

abbrev pub moved_byte : Target → (mot : ℕ) → ArmCore → ArmCore
moved_byte t mot q =
    let a = transfer_address t q mot in
    moved (writes_base mot) mot a (q.mem.memo a) (put_byte q.mem a (reg_at q (rd_of mot) % 256)) q

abbrev pub moved_half : (mot : ℕ) → ArmCore → ArmCore
moved_half mot q =
    let a = half_address q mot in
    moved (stores_back mot) mot a (half_at q.mem a)
      (put_half q.mem a (reg_at q (rd_of mot) % 65536)) q

-- `none` is an instruction that is not covered.
abbrev pub execute : Target → (mot : ℕ) → ArmCore → Option ArmCore
execute t mot q =
    if is_branch mot
    then some (branches mot q)
    else if is_ignored mot
    then some q
    else if computes mot
    then some (computed t mot q)
    else if moves_word t mot q
    then some (moved_word t mot q)
    else if moves_byte t mot q
    then some (moved_byte t mot q)
    else if moves_half t mot q
    then some (moved_half mot q)
    else none

-- The program counter is below 2 ^ 28 - 8, aligned, and inside the block.
abbrev pub can_fetch : ArmCore → Bool
can_fetch p =
    ltb p.reg.cpsr 268435448 && p.reg.cpsr % 4 == 0 && ltb (p.reg.cpsr + 3) (4 * p.mem.size)

-- One step: an instruction whose condition fails on clear flags resets the core.
abbrev pub reference_step : Target → ArmCore → Option ArmCore
reference_step t p =
    let mot = word_at p.mem p.reg.cpsr in
    if can_fetch p
    then (if runs_without_flags (mot / 268435456 % 16)
        then execute t mot (fetched p)
        else some (restarted (fetched p)))
    else none

-- What the step returns: 1 at a condition that fails.
abbrev pub reference_result : ArmCore → ℕ
reference_result p = if runs_without_flags (word_at p.mem p.reg.cpsr / 268435456 % 16) then 0 else 1

abbrev pub and_then : {A : Type 0} → Option ArmCore → (ArmCore → Option A) → Option A
and_then none k = none
and_then (some q) k = k q

abbrev pub reference_run : Target → ℕ → ArmCore → Option ArmCore
reference_run t zero p = some p
reference_run t (suc n) p = and_then (reference_step t p) (reference_run t n)
