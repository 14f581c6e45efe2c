-- ===== src/Prelude/Int.antt =====
-- Signed integers over the native numbers, for what a two's complement word stands for.
use progs.Prelude.Tests.{ltb, if◌then◌else◌}
use progs.Prelude.Word.{word_size}
use Prim.Native.Nat.{ℕ, suc, ◌+◌, ◌-◌, ◌*◌, ◌≤◌, ◌<◌}

-- `negsuc n` is -(n + 1).
pub data ℤ : Type 0 where
  pos : ℕ → ℤ
  negsuc : ℕ → ℤ

abbrev pub pos_part : ℤ → ℕ
pos_part (pos n) = n
pos_part (negsuc n) = 0

abbrev pub neg_part : ℤ → ℕ
neg_part (pos n) = 0
neg_part (negsuc n) = suc n

-- What a uint32_t stands for when it is read as an int32_t.
abbrev pub signed32 : ℕ → ℤ
signed32 w = if ltb w 2147483648 then pos w else negsuc (word_size - w - 1)

-- `q` is `a / d` rounded towards minus infinity: `q * d ≤ a < (q + 1) * d`.
abbrev pub IsFloor : ℤ → ℤ → ℕ → Type 0
IsFloor q a d =
    (pos_part q * d + neg_part a ≤ pos_part a + neg_part q * d)
    × (pos_part a + neg_part q * d < pos_part q * d + d + neg_part a)
