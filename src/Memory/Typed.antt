-- ===== src/Memory/Typed.antt =====
-- The accesses of memory.c give words and keep the bytes of the block bytes.
use progs.Prelude.{ℕ, ◌/◌, ◌<◌, Bool, true, false, arith, ltb, ◌==◌, if◌then◌else◌}
use progs.Prelude.Word.{u8}
use progs.Util.{Target}
use progs.Memory
use progs.Memory.{
  Memory, Access, load, store, update, allocated, memory_read_byte, memory_read_half,
  memory_read_word, memory_write_byte, memory_write_half, memory_write_word, reverse_endianess,
}
use progs.Memory.Layout.{IsBytes}
use progs.Prelude.Range.{
  IsWord, u32-IsWord, if-IsWord, byte-IsWord, low_byte-IsWord, low_half-IsWord,
}

abbrev pub EndsWord : Access ℕ → Type 0
EndsWord (Memory.done v) = IsWord v
EndsWord Memory.refused = Unit {0}
EndsWord Memory.fault = Unit {0}

abbrev pub EndsBytes : Access Memory → Type 0
EndsBytes (Memory.done m) = IsBytes m
EndsBytes Memory.refused = Unit {0}
EndsBytes Memory.fault = Unit {0}

pub record GivesWord (a : Access ℕ) : Type 0 where
  pub is : EndsWord a

pub record GivesBytes (a : Access Memory) : Type 0 where
  pub is : EndsBytes a

done-GivesWord : (v : ℕ) → IsWord v → GivesWord (Memory.done v)
done-GivesWord v h = record { is = h }

refused_or_word :
    (b : Bool) (a : Access ℕ) → GivesWord a → GivesWord (if b then Memory.refused else a)
refused_or_word true a h = record { is = tt }
refused_or_word false a h = h

refused_or_bytes :
    (b : Bool) (a : Access Memory) → GivesBytes a → GivesBytes (if b then Memory.refused else a)
refused_or_bytes true a h = record { is = tt }
refused_or_bytes false a h = h

then_word :
    (a : Access ℕ) (k : ℕ → Access ℕ) → ((v : ℕ) → GivesWord (k v)) → GivesWord (Memory.◌>>=◌ a k)
then_word (Memory.done v) k h = h v
then_word Memory.refused k h = record { is = tt }
then_word Memory.fault k h = record { is = tt }

then_bytes :
    (a : Access Memory) (k : Memory → Access Memory)
    → GivesBytes a
    → ((m : Memory) → IsBytes m → GivesBytes (k m))
    → GivesBytes (Memory.◌>>=◌ a k)
then_bytes (Memory.done m) k bytes h = h m bytes.is
then_bytes Memory.refused k bytes h = record { is = tt }
then_bytes Memory.fault k bytes h = record { is = tt }

ruleset word_rules = (
  done-GivesWord, refused_or_word, then_word, if-IsWord, u32-IsWord, low_byte-IsWord,
  low_half-IsWord,
)

module _ (t : Target) (m : Memory) (address : ℕ) where
  pub read_half-GivesWord : GivesWord (memory_read_half t m address)
  unfolding memory_read_half
  read_half-GivesWord = search word_rules depth 20

  pub read_word-GivesWord : GivesWord (memory_read_word t m address)
  unfolding memory_read_word
  read_word-GivesWord = search word_rules depth 20

  loaded_byte :
      (b : Bool)
      → m.memo address < 256
      → GivesWord (
          Memory.◌>>=◌
            (if b then Memory.done (m.memo address) else Memory.fault)
            (λ v. Memory.done (if m.is_big_endian then v else u8 (reverse_endianess t v 8))))
  loaded_byte true h = record {
    is =
        if-IsWord m.is_big_endian (m.memo address) (u8 (reverse_endianess t (m.memo address) 8))
          (byte-IsWord (m.memo address) h)
          (low_byte-IsWord (reverse_endianess t (m.memo address) 8));
  }
  loaded_byte false h = record { is = tt }

  pub read_byte-GivesWord : IsBytes m → GivesWord (memory_read_byte t m address)
  unfolding memory_read_byte load
  read_byte-GivesWord bytes =
      refused_or_word (ltb m.size (address / 4)) _
        (loaded_byte (ltb address (allocated m)) (bytes address))

low_or_old : (b : Bool) (v old : ℕ) → old < 256 → (if b then u8 v else old) < 256
low_or_old true v old h = omega arith
low_or_old false v old h = h

store-GivesBytes : (m : Memory) (i v : ℕ) → IsBytes m → GivesBytes (store m i v)
unfolding store
store-GivesBytes m i v bytes = either (ltb i (allocated m))
  where
    either :
        (b : Bool)
        → GivesBytes
            (if b then Memory.done (record m { memo = update m.memo i (u8 v) }) else Memory.fault)
    either true = record { is = λ j. low_or_old (j == i) v (m.memo j) (bytes j) }
    either false = record { is = tt }

ruleset bytes_rules = (refused_or_bytes, then_bytes, store-GivesBytes)

module _ (t : Target) (m : Memory) (address value : ℕ) (bytes : IsBytes m) where
  pub write_byte-GivesBytes : GivesBytes (memory_write_byte t m address value)
  unfolding memory_write_byte
  write_byte-GivesBytes = search (bytes_rules, bytes) depth 20

  pub write_half-GivesBytes : GivesBytes (memory_write_half t m address value)
  unfolding memory_write_half
  write_half-GivesBytes = search (bytes_rules, bytes) depth 20

  pub write_word-GivesBytes : GivesBytes (memory_write_word t m address value)
  unfolding memory_write_word
  write_word-GivesBytes = search (bytes_rules, bytes) depth 20
