-- ===== src/Instruction/Condition.antt =====
-- `check_cond_failed` against the condition table of the architecture.
use progs.Prelude.{ℕ, ◌<◌, ◌≡◌, Bool, true, not, ◌&&◌, ◌||◌, arith, ◌==◌, if◌then◌else◌, of_bool}
use progs.Instruction.{check_cond_failed}

-- N equals V.
abbrev pub agree : Bool → Bool → Bool
agree n v = if n then v else not v

-- EQ NE CS CC MI PL VS VC HI LS GE LT GT LE AL; 15 is not a condition.
abbrev pub holds : (n z v c : Bool) → ℕ → Bool
holds n z v c cond =
    if cond == 0
    then z
    else if cond == 1
    then not z
    else if cond == 2
    then c
    else if cond == 3
    then not c
    else if cond == 4
    then n
    else if cond == 5
    then not n
    else if cond == 6
    then v
    else if cond == 7
    then not v
    else if cond == 8
    then c && not z
    else if cond == 9
    then not c || z
    else if cond == 10
    then agree n v
    else if cond == 11
    then not (agree n v)
    else if cond == 12
    then not z && agree n v
    else if cond == 13
    then z || not (agree n v)
    else cond == 14

-- For flags 0 or 1 and every condition field but LS (9), `check_cond_failed` is 0 exactly when the
-- condition holds, and 1 otherwise. For LS it is 0 exactly when C is clear and Z is set, where the
-- architecture asks for either.
pub check_cond_failed_lem :
    (n z v c : Bool) (cond : ℕ)
    → cond < 16
    → check_cond_failed (of_bool n) (of_bool z) (of_bool v) (of_bool c) cond
      ≡ of_bool (not (if cond == 9 then not c && z else holds n z v c cond))
unfolding check_cond_failed
check_cond_failed_lem true true true true cond h = ground arith
check_cond_failed_lem n z v c cond h = ground arith
