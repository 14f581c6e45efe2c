-- ===== src/Instruction/Outcome.antt =====
-- Every outcome of `arm_step` while the program counter, which is the status word, has no flag set.
use progs.Prelude.{
  ℕ, ◌+◌, ◌*◌, ◌/◌, ◌%◌, ◌<◌, ◌≡◌, refl, ap, ◌∙◌, Bool, Bool-cases, true, false, ◌||◌, none, some,
  inl, inr, arith, ltb, ◌==◌, if◌then◌else◌,
}
use progs.Util.{Target}
use progs.Memory.{done, memory_read_word, load, refused, fault as outside}
use progs.Memory.Outcome.{IsAllocated}
use progs.Memory.Layout.{IsBytes, word_at, read_word-done}
use progs.Core.{ArmCore, Run, M, ok, fault, and_then, arm_read_cpsr}
use progs.Core.Fetch.{
  fetch_address, fetch_address_lem, fetched, fetch-done, fetch-refused, fetch-outside,
}
use progs.Exception.Reset.{restarted}
use progs.Instruction.{
  check_cond_failed, select_execute_instruction, arm_execute_instruction, arm_step,
}
use progs.Instruction.Step.{condition, concluded, executed, step-passed, step-failed}

-- The conditions that hold without flags: NE, CC, PL, VC, GE, GT and AL.
abbrev pub runs_without_flags : ℕ → Bool
runs_without_flags cond =
    cond == 1 || cond == 3 || cond == 5 || cond == 7 || cond == 10 || cond == 12 || cond == 14

pub condition-runs :
    (cpsr mot : ℕ)
    → cpsr < 268435456
    → condition cpsr mot ≡ (if runs_without_flags (mot / 268435456 % 16) then 0 else 1)
unfolding check_cond_failed
condition-runs cpsr mot small = ground arith

pub executed-flags :
    (t : Target) (cpsr mot : ℕ)
    → cpsr < 268435456
    → executed t cpsr mot ≡ select_execute_instruction t mot 0 0 0 0
executed-flags t cpsr mot small =
    let clear31 : cpsr / 2147483648 % 2 ≡ 0 = omega arith in
    let clear30 : cpsr / 1073741824 % 2 ≡ 0 = omega arith in
    let clear29 : cpsr / 536870912 % 2 ≡ 0 = omega arith in
    let clear28 : cpsr / 268435456 % 2 ≡ 0 = omega arith in
    rw (clear31, clear30, clear29, clear28) refl

module _ (t : Target) (p : ArmCore) where
  -- The fetch reads a word at an address that is not a multiple of 4, or past the word after the block.
  abbrev pub fetch_fails : Bool
  fetch_fails = ltb 0 (fetch_address p % 4) || ltb (4 * p.mem.size + 3) (fetch_address p)

  -- The fetch reads the word after the block.
  abbrev pub fetch_overruns : Bool
  fetch_overruns = ltb (4 * p.mem.size) (fetch_address p + 4)

  word-refused : fetch_fails ≡ true → memory_read_word t p.mem (fetch_address p) ≡ refused
  unfolding memory_read_word
  word-refused e = ground arith

  word-outside :
      IsAllocated p.mem
      → fetch_fails ≡ false
      → fetch_overruns ≡ true
      → memory_read_word t p.mem (fetch_address p) ≡ outside
  unfolding memory_read_word load
  word-outside w e f = ground arith

  step-outside : memory_read_word t p.mem (fetch_address p) ≡ outside → arm_step t p ≡ fault
  unfolding arm_step arm_execute_instruction arm_read_cpsr
  step-outside e = rw (fetch-outside t p e) refl

  -- What the core is after a step that executes nothing.
  abbrev pub reset_by_step : Run ℕ
  reset_by_step = ok 1 (restarted (fetched p))

  -- What a step does with the word that it fetches.
  abbrev pub dispatched : ℕ → Run ℕ
  dispatched mot =
      if runs_without_flags (mot / 268435456 % 16)
      then and_then (select_execute_instruction t mot 0 0 0 0 (fetched p)) concluded
      else reset_by_step

  status_lt : p.reg.cpsr < 268435448 → (fetched p).reg.cpsr < 268435456
  status_lt small = omega (arith, fetch_address_lem p (omega arith))

  step-refused :
      p.reg.cpsr < 268435448
      → memory_read_word t p.mem (fetch_address p) ≡ refused
      → arm_step t p ≡ reset_by_step
  step-refused small e =
      step-failed t p (fetched p) none (fetch-refused t p e)
        λ passed. absurd (omega (arith, passed, failed))
    where
      field : p.reg.cpsr / 268435456 % 16 ≡ 0
      field = omega arith

      failed : condition (fetched p).reg.cpsr p.reg.cpsr ≡ 1
      failed =
          condition-runs (fetched p).reg.cpsr p.reg.cpsr (status_lt small)
          ∙ ap (λ (cond : ℕ). if runs_without_flags cond then 0 else 1) field

  step-dispatched :
      p.reg.cpsr < 268435448
      → (mot : ℕ) → memory_read_word t p.mem (fetch_address p) ≡ done mot
      → arm_step t p ≡ dispatched mot
  step-dispatched small mot e =
      let status = (fetched p).reg.cpsr in
      let flags = condition-runs status mot (status_lt small) in
      elim (Bool-cases (runs_without_flags (mot / 268435456 % 16))) [
        | inl runs ↦
            step-passed t p (fetched p) (some mot) (fetch-done t p mot e) (flags ∙ rw runs refl)
            ∙ ap (λ (m : M ℕ). and_then (m (fetched p)) concluded)
                (executed-flags t status mot (status_lt small))
            ∙ rw runs refl
        | inr stops ↦
            let failed : condition status mot ≡ 1 = flags ∙ rw stops refl in
            step-failed t p (fetched p) (some mot) (fetch-done t p mot e)
              (λ passed. absurd (omega (arith, passed, failed)))
            ∙ rw stops refl
      ]

-- One step of a core whose program counter is below 2 ^ 28 - 8, with any instruction there. The fetch
-- takes its address from the program counter with bit 1 cleared. When that is not a multiple of 4 or is
-- past the word after the block, the step resets the core and returns 1. When it is the word after
-- the block, the run leaves the block. In every other case the word there is executed, with all
-- flags clear, if its condition is NE, CC, PL, VC, GE, GT or AL, and otherwise the step resets the
-- core and returns 1: no other condition ever holds.
pub arm_step_lem :
    (t : Target) (p : ArmCore)
    → IsAllocated p.mem
    → IsBytes p.mem
    → p.reg.cpsr < 268435448
    → arm_step t p ≡ (
        if fetch_fails t p
        then reset_by_step t p
        else if fetch_overruns t p
        then fault
        else dispatched t p (word_at p.mem (fetch_address p)))
arm_step_lem t p w bytes small = elim (Bool-cases (fetch_fails t p)) [
  | inl fails ↦ step-refused t p small (word-refused t p fails) ∙ rw fails refl
  | inr fetches ↦ elim (Bool-cases (fetch_overruns t p)) [
    | inl overruns ↦
        step-outside t p (word-outside t p w fetches overruns) ∙ rw (fetches, overruns) refl
    | inr fits ↦
        let read =
          read_word-done t p.mem (fetch_address p) w (omega arith) bytes (ground arith)
            (ground arith) in
        step-dispatched t p small (word_at p.mem (fetch_address p)) read ∙ rw (fetches, fits) refl
  ]
]
