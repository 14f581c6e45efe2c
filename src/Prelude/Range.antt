-- ===== src/Prelude/Range.antt =====
-- Which results are 32-bit words.
use Prim.Native.Nat.{ℕ, ◌≤◌, ◌<◌, bit_and, bit_or, bit_xor}
use mathlib.Core.Bool.{Bool, true, false}
use native.Mathlib.Omega.{arith}
use progs.Prelude.Tests.{if◌then◌else◌}
use progs.Prelude.Word.{word_size, u8, u16, u32, sub32, not32}
use progs.Prelude.Bits.{bit_and-le, bit_or-lt-pow, bit_xor-lt-pow}

abbrev pub IsWord : ℕ → Type 0
IsWord v = v < word_size

pub u32-IsWord : (v : ℕ) → IsWord (u32 v)
u32-IsWord v = omega arith

pub sub32-IsWord : (a b : ℕ) → IsWord (sub32 a b)
sub32-IsWord a b = omega arith

pub not32-IsWord : (a : ℕ) → IsWord (not32 a)
not32-IsWord a = omega arith

pub bit_and-IsWord : (a b : ℕ) → IsWord a → IsWord (bit_and a b)
bit_and-IsWord a b h = let small : bit_and a b ≤ a = bit_and-le a a b (omega arith) in omega arith

pub bit_or-IsWord : (a b : ℕ) → IsWord a → IsWord b → IsWord (bit_or a b)
bit_or-IsWord a b h k = bit_or-lt-pow 32 a b h k

pub bit_xor-IsWord : (a b : ℕ) → IsWord a → IsWord b → IsWord (bit_xor a b)
bit_xor-IsWord a b h k = bit_xor-lt-pow 32 a b h k

pub if-IsWord : (b : Bool) (v w : ℕ) → IsWord v → IsWord w → IsWord (if b then v else w)
if-IsWord true v w h k = h
if-IsWord false v w h k = k

pub zero-IsWord : IsWord 0
zero-IsWord = omega arith

pub one-IsWord : IsWord 1
one-IsWord = omega arith

pub byte-IsWord : (v : ℕ) → v < 256 → IsWord v
byte-IsWord v h = omega arith

pub low_byte-IsWord : (v : ℕ) → IsWord (u8 v)
low_byte-IsWord v = omega arith

pub low_half-IsWord : (v : ℕ) → IsWord (u16 v)
low_half-IsWord v = omega arith

pub ruleset range_rules = (
  u32-IsWord, sub32-IsWord, not32-IsWord, bit_and-IsWord, bit_or-IsWord, bit_xor-IsWord, if-IsWord,
  zero-IsWord, one-IsWord, low_byte-IsWord, low_half-IsWord,
)
