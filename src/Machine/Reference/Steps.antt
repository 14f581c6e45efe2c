-- ===== src/Machine/Reference/Steps.antt =====
-- The steps of the code against those of the interpreter.
use progs.Prelude.{
  ℕ, ◌+◌, ◌-◌, ◌/◌, ◌%◌, ◌<◌, ◌≤◌, ◌≡◌, refl, ap, ◌∙◌, Bool-cases, true, false, inl, inr, ◌⊎◌,
  arith, if◌then◌else◌, is_set, Option, none, some,
}
use progs.Prelude.Word.{word_size, u32}
use progs.Util.{Target}
use progs.Memory.Outcome.{IsAllocated, Fits}
use progs.Memory.Layout.{word_at}
use progs.Core.{ArmCore, as_pc, Run, M, ok, and_then}
use progs.Core.RegisterFile.{reg_at, put, as_pc_lem, as_pc-lt}
use progs.Core.Typed.{IsTyped}
use progs.Branch.{branch_offset}
use progs.Branch.Offset.{branch_target_lem}
use progs.Instruction.{select_execute_instruction, arm_step}
use progs.Instruction.Branching.{select-branch}
use progs.Instruction.DataStep.{select-data, traitement_ar_lem}
use progs.Instruction.TransferStep.{fetched, select-ignored}
use progs.Core.Fetch.{arm_fetch_lem}
use progs.Exception.Reset.{restarted}
use progs.Instruction.Step.{concluded, condition, step-passed, step-failed}
use progs.Instruction.Outcome.{runs_without_flags, condition-runs, executed-flags}
use progs.Instruction.Decode.{is_comparison}
use progs.Machine.Reference.Moves.{executed-word, executed-byte, executed-half}
use progs.Machine.Reference.{
  branches, is_branch, is_ignored, computes, computed, moves_word, moves_byte, moves_half,
  moved_word, moved_byte, moved_half, execute, can_fetch, reference_result, reference_step,
}

-- The code returns 0 with the interpreter's core, where there is one.
abbrev Does : Run ℕ → Option ArmCore → Type 0
Does r none = Unit {0}
Does r (some q) = r ≡ ok 0 q

-- The code returns `result` with the interpreter's core, where there is one.
abbrev pub Agrees : (result : ℕ) → Run ℕ → Option ArmCore → Type 0
Agrees result r none = Unit {0}
Agrees result r (some q) = r ≡ ok result q

module _ (t : Target) (mot : ℕ) (q : ArmCore) where
  -- The code on `mot`, with clear flags.
  abbrev executed : Run ℕ
  executed = select_execute_instruction t mot 0 0 0 0 q

  executed-branch :
      is_branch mot ≡ true
      → 4 ≤ q.reg.cpsr
      → q.reg.cpsr < 268435452
      → q.reg.cpsr % 4 ≡ 0
      → executed ≡ ok 0 (branches mot q)
  executed-branch kind low high aligned =
      let a = q.reg.cpsr - 4 in
      let linked = λ (pc : ℕ). if is_set (mot / 16777216 % 2) then put q 14 pc else q in
      let read : as_pc q.reg.cpsr ≡ a + 8 = omega (arith, as_pc_lem q.reg.cpsr) in
      select-branch t mot 0 0 0 0 q (ground arith)
      ∙ ap (λ (pc : ℕ). ok 0 (put (linked pc) 15 (u32 (pc + branch_offset mot)))) read
      ∙ ap (λ (v : ℕ). ok 0 (put (linked (a + 8)) 15 v)) (branch_target_lem a mot (omega arith))

  executed-ignored : is_ignored mot ≡ true → executed ≡ ok 0 q
  executed-ignored kind = select-ignored t mot 0 0 0 0 q (ground arith)

  executed-computes : computes mot ≡ true → IsTyped q → executed ≡ ok 0 (computed t mot q)
  executed-computes kind typed =
      let word : reg_at q (mot / 65536 % 16) < word_size =
        ground (arith, as_pc-lt q.reg.cpsr, typed.0.0 (mot / 65536 % 16)) in
      let stores : is_comparison (mot / 2097152 % 16) ≡ false = ground arith in
      let shifter : (mot / 128 % 2 ≡ 0) ⊎ (mot / 16 % 2 ≡ 0) = ground arith in
      select-data t mot 0 0 0 0 q (ground arith) shifter
      ∙ traitement_ar_lem t mot 0 q (omega arith) word
      ∙ rw stores refl

  executed-moves :
      IsAllocated q.mem
      → IsTyped q
      → Does executed (
          if moves_word t mot q
          then some (moved_word t mot q)
          else if moves_byte t mot q
          then some (moved_byte t mot q)
          else if moves_half t mot q
          then some (moved_half mot q)
          else none)
  executed-moves w typed = elim (Bool-cases (moves_word t mot q)) [
    | inl e ↦ rw e (executed-word t mot q w typed e)
    | inr no_word ↦ elim (Bool-cases (moves_byte t mot q)) [
      | inl e ↦ rw (no_word, e) (executed-byte t mot q w typed e)
      | inr no_byte ↦ elim (Bool-cases (moves_half t mot q)) [
        | inl e ↦ rw (no_word, no_byte, e) (executed-half t mot q w typed e)
        | inr e ↦ rw (no_word, no_byte, e) tt
      ]
    ]
  ]

  executed-Does :
      IsAllocated q.mem
      → IsTyped q
      → 4 ≤ q.reg.cpsr
      → q.reg.cpsr < 268435452
      → q.reg.cpsr % 4 ≡ 0
      → Does executed (execute t mot q)
  executed-Does w typed low high aligned = elim (Bool-cases (is_branch mot)) [
    | inl e ↦ rw e (executed-branch e low high aligned)
    | inr not_branch ↦ elim (Bool-cases (is_ignored mot)) [
      | inl e ↦ rw (not_branch, e) (executed-ignored e)
      | inr not_ignored ↦ elim (Bool-cases (computes mot)) [
        | inl e ↦ rw (not_branch, not_ignored, e) (executed-computes e typed)
        | inr no_result ↦ rw (not_branch, not_ignored, no_result) (executed-moves w typed)
      ]
    ]
  ]

concluded-Agrees :
    (s r : Run ℕ) (o : Option ArmCore) → s ≡ and_then r concluded → Does r o → Agrees 0 s o
concluded-Agrees s r none same does = tt
concluded-Agrees s r (some q) same does = same ∙ ap (λ (x : Run ℕ). and_then x concluded) does

module _ (t : Target) (p : ArmCore) (w : IsAllocated p.mem) (typed : IsTyped p) where
  abbrev mot : ℕ
  mot = word_at p.mem p.reg.cpsr

  abbrev status : ℕ
  status = p.reg.cpsr + 4

  pub step_fetched :
      can_fetch p ≡ true
      → Agrees (reference_result p) (arm_step t p) (
          if runs_without_flags (mot / 268435456 % 16)
          then execute t mot (fetched p)
          else some (restarted (fetched p)))
  step_fetched can =
      let small : p.reg.cpsr < 268435448 = ground arith in
      let aligned : p.reg.cpsr % 4 ≡ 0 = ground arith in
      let fits : Fits p.mem p.reg.cpsr 4 = ground arith in
      let flags = condition-runs status mot (omega arith) in
      let fetch = arm_fetch_lem t p w typed.1 (omega arith) aligned fits in
      elim (Bool-cases (runs_without_flags (mot / 268435456 % 16))) [
        | inl runs ↦ rw runs (
            concluded-Agrees (arm_step t p) (executed t mot (fetched p)) (execute t mot (fetched p))
              (step-passed t p (fetched p) (some mot) fetch (flags ∙ rw runs refl)
                ∙ ap (λ (m : M ℕ). and_then (m (fetched p)) concluded)
                    (executed-flags t status mot (omega arith)))
              (executed-Does t mot (fetched p) w ((typed.0.0, omega arith), typed.1) (omega arith)
                (omega arith) (omega arith)))
        | inr stops ↦
            let failed : condition status mot ≡ 1 = flags ∙ rw stops refl in
            rw stops (
              step-failed t p (fetched p) (some mot) fetch
                (λ passed. absurd (omega (arith, passed, failed))))
      ]

  pub step-Agrees : Agrees (reference_result p) (arm_step t p) (reference_step t p)
  step-Agrees = elim (Bool-cases (can_fetch p)) [
    | inl can ↦ rw can (step_fetched can)
    | inr can ↦ rw can tt
  ]
