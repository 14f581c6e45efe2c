-- ===== src/Instruction/Step.antt =====
-- `arm_step`: fetch, condition, execution and exception together.
use progs.Prelude.{
  ℕ, ◌%◌, ◌≡◌, ◌≢◌, refl, Option, arith, ◌==◌, ◌!=◌, true, false, if◌then◌else◌, is_set,
}
use progs.Prelude.Word.{u8, ◌>>>◌}
use progs.Util.{Target}
use progs.Core.{ArmCore, Run, ok, fault, M, and_then, pure, ◌>>◌, arm_fetch, arm_read_cpsr}
use progs.Exception.{arm_exception}
use progs.Exception.Reset.{restarted, arm_exception_lem}
use progs.Instruction.{
  check_cond_failed, fetched_or, select_execute_instruction, arm_execute_instruction, arm_step,
}

-- The condition test of instruction `mot` on a status word.
abbrev pub condition : (cpsr mot : ℕ) → ℕ
condition cpsr mot =
    check_cond_failed ((cpsr >>> 31) % 2) ((cpsr >>> 30) % 2) ((cpsr >>> 28) % 2)
      ((cpsr >>> 29) % 2) ((mot >>> 28) % 16)

abbrev pub executed : Target → (cpsr mot : ℕ) → M ℕ
executed t cpsr mot =
    select_execute_instruction t mot ((cpsr >>> 31) % 2) ((cpsr >>> 30) % 2) ((cpsr >>> 28) % 2)
      ((cpsr >>> 29) % 2)

-- What `arm_step` does with the result of the execution.
abbrev pub concluded : ℕ → M ℕ
concluded result q = ok result (if u8 result == 1 then restarted q else q)

abbrev raised : ℕ → M ℕ
raised result = do if is_set result then arm_exception (u8 result) else pure tt; pure result

raised_lem : (result : ℕ) (q : ArmCore) → raised result q ≡ concluded result q
raised_lem result q = ground (arith, arm_exception_lem (u8 result) q)

raised_run : (r : Run ℕ) → and_then r raised ≡ and_then r concluded
raised_run (ok result q) = raised_lem result q
raised_run fault = refl

module _ (t : Target) (p q : ArmCore) (word : Option ℕ) (fetch : arm_fetch t p ≡ ok word q) where
  abbrev pub current : ℕ
  current = fetched_or p.reg.cpsr word

  -- An instruction whose condition fails is not skipped: the step returns 1, which is the number
  -- of the reset exception, so the status word and program counter become 0.
  pub step-failed : condition q.reg.cpsr current ≢ 0 → arm_step t p ≡ ok 1 (restarted q)
  unfolding arm_step arm_execute_instruction arm_read_cpsr
  step-failed failed =
      let e : (condition q.reg.cpsr current != 0) ≡ true = ground arith in
      rw (fetch, e) (raised_lem 1 q)

  pub step-passed :
      condition q.reg.cpsr current ≡ 0
      → arm_step t p ≡ and_then (executed t q.reg.cpsr current q) concluded
  unfolding arm_step arm_execute_instruction arm_read_cpsr
  step-passed passed =
      let e : (condition q.reg.cpsr current != 0) ≡ false = ground arith in
      rw (fetch, e) (raised_run (executed t q.reg.cpsr current q))
