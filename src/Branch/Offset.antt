-- ===== src/Branch/Offset.antt =====
-- Where a branch goes.
use progs.Prelude.{
  ℕ, ◌+◌, ◌-◌, ◌*◌, ◌/◌, ◌%◌, ◌≤◌, ◌<◌, ◌≡◌, arith, ltb, if◌then◌else◌, is_set, bit_or,
}
use progs.Prelude.Word.{word_size, u32, ◌<<<◌}
use progs.Prelude.Int.{ℤ, pos, negsuc, signed32}
use progs.Prelude.Masks.{bit_or_comm, bit_or_fields}
use progs.Core.{ArmCore, ok, as_pc}
use progs.Core.RegisterFile.{put, read-ok, write-ok}
use progs.Branch.{branch_offset, arm_branch}

-- The 24-bit field of a branch as a signed number of bytes.
abbrev pub byte_offset : ℕ → ℤ
byte_offset ins =
    let field = ins % 16777216 in
    if ltb field 8388608 then pos (4 * field) else negsuc (4 * (16777216 - field) - 1)

top_ones :
    (si : ℕ)
    → si < 16777216
    → 8388608 ≤ si
    → u32 (bit_or si 0x3F000000 <<< 2) ≡ word_size - 4 * (16777216 - si)
top_ones si h top = omega (
  arith,
  bit_or_comm (si + 0x3F000000) si 0x3F000000 (omega arith) (omega arith),
  bit_or_fields 24 63 si h,
)

-- The target of a branch at `a`: the 24-bit field is signed and counts words from `a + 8`.
abbrev pub branch_target : (a mot : ℕ) → ℕ
branch_target a mot =
    let field = mot % 16777216 in
    if ltb field 8388608
    then (a + 8 + 4 * field) % word_size
    else (a + 8 + word_size - 4 * (16777216 - field)) % word_size

pub branch_target_lem :
    (a mot : ℕ) → a < word_size - 8 → u32 (a + 8 + branch_offset mot) ≡ branch_target a mot
unfolding branch_offset
branch_target_lem a mot small = ground (arith, top_ones (mot % 16777216))

-- The offset that the code adds is the field, sign-extended and multiplied by 4.
pub branch_offset_lem : (ins : ℕ) → signed32 (branch_offset ins) ≡ byte_offset ins
unfolding branch_offset
branch_offset_lem ins = ground (arith, top_ones (ins % 16777216))

-- What a branch does to the core `p` at offset `offset`: with the L bit the program counter as it
-- is read goes to register 14 first.
abbrev pub branched : (l offset : ℕ) → ArmCore → ArmCore
branched l offset p =
    let pc = as_pc p.reg.cpsr in put (if is_set l then put p 14 pc else p) 15 (u32 (pc + offset))

pub arm_branch_lem :
    (p : ArmCore) (ins : ℕ)
    → ins / 33554432 % 2 ≡ 1
    → arm_branch ins p ≡ ok 0 (branched (ins / 16777216 % 2) (branch_offset ins) p)
unfolding arm_branch
arm_branch_lem p ins h = ground (
  arith,
  read-ok p 15,
  write-ok p 14 (omega arith) (as_pc p.reg.cpsr),
  write-ok (put p 14 (as_pc p.reg.cpsr)) 15 (omega arith)
      (u32 (as_pc p.reg.cpsr + branch_offset ins)),
  write-ok p 15 (omega arith) (u32 (as_pc p.reg.cpsr + branch_offset ins)),
)
