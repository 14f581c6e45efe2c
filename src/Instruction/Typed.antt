-- ===== src/Instruction/Typed.antt =====
-- A step of arm_instruction.c keeps every register a 32-bit word and every byte of the memory a
-- byte, whatever the instruction.
use progs.Prelude.{
  ℕ, ◌/◌, ◌%◌, ◌^◌, ◌≤◌, Bool, true, false, arith, Option, none, some, if◌then◌else◌, bit_or,
}
use progs.Prelude.Word.{◌<<<◌, ◌>>>◌}
use native.Mathlib.Nat.{div-le_self}
use progs.Prelude.Range.{IsWord, zero-IsWord, low_half-IsWord}
use progs.Util.{Target}
use progs.Core.{M, pure, ◌>>=◌, arm_fetch, next_cycle}
use progs.Core.Typed.{Typed, IsUnit, IsRead, bind-Typed}
use progs.Core.Words.{typed_rules}
use progs.Exception.{arm_exception, exception_bit_9}
use progs.DataProcessing.Typed.{data_processing-Typed}
use progs.LoadStore.{arm_load_store, arm_load_store_h, ldr_ldrb, str_strb, or_unassigned}
use progs.Branch.{b_bl_instr, arm_branch}
use progs.Instruction.{
  Shifted, shift_by_register, shift_by_immediate, shift_immediate, fetched_or,
  update_shifter_operand, traitement_ar, traitement_br, select_execute_instruction,
  arm_execute_instruction, arm_step,
}

literal-IsWord : IsWord 0xFFFF
literal-IsWord = omega arith

status-IsWord : IsWord (bit_or 0x1d3 exception_bit_9)
status-IsWord = omega arith

undefined-IsWord : IsWord 2
undefined-IsWord = omega arith

shr-IsWord : (v k : ℕ) → IsWord v → IsWord (v / 2 ^ k)
shr-IsWord v k h = let small : v / 2 ^ k ≤ v = div-le_self v (2 ^ k) in omega arith

field-IsWord : (v : ℕ) → IsWord (v % 4096)
field-IsWord v = omega arith

nibble-IsWord : (v : ℕ) → IsWord (v % 16)
nibble-IsWord v = omega arith

high_nibble-IsWord : (v : ℕ) → IsWord ((v % 16) <<< 4)
high_nibble-IsWord v = omega arith

or_unassigned-IsWord : (o : Option ℕ) (v : ℕ) → IsRead o → IsWord v → IsWord (or_unassigned o v)
or_unassigned-IsWord none v h k = k
or_unassigned-IsWord (some w) v h k = h

ruleset value_rules = (
  typed_rules, literal-IsWord, status-IsWord, undefined-IsWord, shr-IsWord, field-IsWord,
  nibble-IsWord, high_nibble-IsWord, or_unassigned-IsWord,
)

pub arm_exception-Typed : (e : ℕ) → Typed IsUnit (arm_exception e)
unfolding arm_exception
arm_exception-Typed e = search value_rules depth 20

b_bl_instr-Typed : (ins : ℕ) → Typed IsWord (b_bl_instr ins)
unfolding b_bl_instr
b_bl_instr-Typed ins = search value_rules depth 20

arm_branch-Typed : (ins : ℕ) → Typed IsWord (arm_branch ins)
unfolding arm_branch
arm_branch-Typed ins = search (value_rules, b_bl_instr-Typed)

-- The shifter operand.
record IsShifted (x : Shifted) : Type 0 where
  first : IsWord (x.0)

IsShifted-pair : (v carry : ℕ) → IsWord v → IsShifted (v, carry)
IsShifted-pair v carry h = record { first = h }

if-IsShifted :
    (b : Bool) (x y : Shifted) → IsShifted x → IsShifted y → IsShifted (if b then x else y)
if-IsShifted true x y h k = h
if-IsShifted false x y h k = k

shift_by_register-IsShifted :
    (t : Target) (rm rs4 rs7 shift c : ℕ)
    → IsWord rm
    → IsShifted (shift_by_register t rm rs4 rs7 shift c)
unfolding shift_by_register
shift_by_register-IsShifted t rm rs4 rs7 shift c h =
    search
      (IsShifted-pair, if-IsShifted, zero-IsWord, literal-IsWord, low_half-IsWord, shr-IsWord, h)
      depth 20

shift_by_immediate-IsShifted :
    (t : Target) (cycle so rm shift_imm shift c : ℕ)
    → IsWord so
    → IsWord rm
    → IsShifted (shift_by_immediate t cycle so rm shift_imm shift c)
unfolding shift_by_immediate
shift_by_immediate-IsShifted t cycle so rm shift_imm shift c h k =
    search
      (IsShifted-pair, if-IsShifted, zero-IsWord, literal-IsWord, low_half-IsWord, shr-IsWord, h, k)
      depth 20

shift_immediate-IsShifted : (t : Target) (so c : ℕ) → IsShifted (shift_immediate t so c)
unfolding shift_immediate
shift_immediate-IsShifted t so c = search (IsShifted-pair, low_half-IsWord)

shifted_pure : (x : Shifted) → IsShifted x → Typed IsShifted (pure x)
shifted_pure x h = record { at = λ p typed. (h, typed) }

shifted_bind :
    (m : M Shifted) (k : Shifted → M ℕ)
    → Typed IsShifted m
    → ((x : Shifted) → IsShifted x → Typed IsWord (k x))
    → Typed IsWord (m >>= k)
shifted_bind = bind-Typed IsShifted IsWord

fetched_or-IsWord : (v : ℕ) (o : Option ℕ) → IsWord v → IsRead o → IsWord (fetched_or v o)
fetched_or-IsWord v none h k = h
fetched_or-IsWord v (some w) h k = k

next_cycle-Typed : Typed IsUnit next_cycle
next_cycle-Typed = record { at = λ p typed. (tt, typed) }

module _ (t : Target) where
  update_shifter_operand-Typed :
      (rdest so i c : ℕ) → IsWord so → Typed IsShifted (update_shifter_operand t rdest so i c)
  unfolding update_shifter_operand
  update_shifter_operand-Typed rdest so i c h =
      search
        (
          value_rules, shifted_pure, if-IsShifted, shift_by_register-IsShifted,
          shift_by_immediate-IsShifted, shift_immediate-IsShifted, h,
        )
        depth 20

  traitement_ar-Typed : (mot c : ℕ) → Typed IsWord (traitement_ar t mot c)
  unfolding traitement_ar
  traitement_ar-Typed mot c =
      shifted_bind _ _
        (update_shifter_operand-Typed ((mot >>> 12) % 16) (mot % 4096) ((mot >>> 25) % 2) c
          (field-IsWord mot))
        (λ (so, carry) h.
          data_processing-Typed ((mot >>> 16) % 16) ((mot >>> 12) % 16) so h.first
            ((mot >>> 21) % 16) carry ((mot >>> 20) % 2) c)

  ldr_ldrb-Typed : (b temp rd rn : ℕ) → IsWord temp → Typed IsUnit (ldr_ldrb t b temp rd rn)
  unfolding ldr_ldrb
  ldr_ldrb-Typed b temp rd rn h = search (value_rules, h) depth 20

  str_strb-Typed : (b temp rd : ℕ) → Typed IsUnit (str_strb t b temp rd)
  unfolding str_strb
  str_strb-Typed b temp rd = search value_rules depth 20

  arm_load_store-Typed : (ins : ℕ) → Typed IsWord (arm_load_store t ins)
  unfolding arm_load_store
  arm_load_store-Typed ins = search (value_rules, ldr_ldrb-Typed, str_strb-Typed) depth 20

  arm_load_store_h-Typed : (ins : ℕ) → Typed IsWord (arm_load_store_h t ins)
  unfolding arm_load_store_h
  arm_load_store_h-Typed ins = search value_rules depth 20

  traitement_br-Typed : (mot : ℕ) → Typed IsWord (traitement_br t mot)
  unfolding traitement_br
  traitement_br-Typed mot = search (value_rules, arm_branch-Typed)

  select-Typed : (mot n z v c : ℕ) → Typed IsWord (select_execute_instruction t mot n z v c)
  unfolding select_execute_instruction
  select-Typed mot n z v c =
      search
        (
          value_rules, arm_load_store_h-Typed, traitement_ar-Typed, arm_load_store-Typed,
          traitement_br-Typed,
        )
        depth 20

  arm_fetch-Typed : Typed IsRead (arm_fetch t)
  unfolding arm_fetch
  arm_fetch-Typed = search (value_rules, next_cycle-Typed) depth 20

  arm_execute-Typed : Typed IsWord (arm_execute_instruction t)
  unfolding arm_execute_instruction
  arm_execute-Typed = search (value_rules, arm_fetch-Typed, select-Typed) depth 20

  -- A step leaves the registers, the status word and the memory with what their C types can hold,
  -- whatever the instruction, and gives a word.
  pub arm_step-Typed : Typed IsWord (arm_step t)
  unfolding arm_step
  arm_step-Typed = search (value_rules, arm_execute-Typed, arm_exception-Typed) depth 20
