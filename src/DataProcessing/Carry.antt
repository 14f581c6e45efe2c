-- ===== src/DataProcessing/Carry.antt =====
-- `carryFrom`, `borrowFrom` and `overflowFrom` against the true sums and differences.
use progs.Prelude.{ℕ, ◌+◌, ◌/◌, ◌<◌, ◌≡◌, Bool, not, ◌&&◌, ◌||◌, arith, ltb, of_bool}
use progs.Prelude.Word.{word_size, u32, sub32}
use progs.Prelude.Int.{signed32, pos_part, neg_part}
use progs.DataProcessing.{carry_from, overflow_from}

-- `carryFrom` is the 33rd bit of the sum.
pub carry_from_lem :
    (a b : ℕ) → a < word_size → b < word_size → carry_from a b ≡ (a + b) / word_size
unfolding carry_from
carry_from_lem a b ha hb = ground arith

-- `a - b` of two integers given by their parts fits an int32_t.
abbrev pub fits_int32 : (plus minus : ℕ) → Bool
fits_int32 plus minus = ltb plus (2147483648 + minus) && ltb minus (2147483649 + plus)

abbrev pub difference_fits : ℕ → ℕ → Bool
difference_fits a b =
    let x = signed32 a in
    let y = signed32 b in fits_int32 (pos_part x + neg_part y) (neg_part x + pos_part y)

abbrev pub sum_fits : ℕ → ℕ → Bool
sum_fits a b =
    let x = signed32 a in
    let y = signed32 b in fits_int32 (pos_part x + pos_part y) (neg_part x + neg_part y)

abbrev pub same_sign : ℕ → ℕ → Bool
same_sign a b = ltb a 2147483648 && ltb b 2147483648 || ltb 2147483647 a && ltb 2147483647 b

-- `overflowFrom` of a subtraction is 1 exactly when the signed difference does not fit; of an
-- addition it is 1 exactly when the operands have the same sign and the signed sum does fit.
pub overflow_from_lem :
    (a b : ℕ)
    → a < word_size
    → b < word_size
    → (overflow_from a b (sub32 a b) 0 ≡ of_bool (not (difference_fits a b)))
      × (overflow_from a b (u32 (a + b)) 1 ≡ of_bool (same_sign a b && sum_fits a b))
unfolding overflow_from
overflow_from_lem a b ha hb = (ground arith, ground arith)
