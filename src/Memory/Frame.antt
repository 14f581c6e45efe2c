-- ===== src/Memory/Frame.antt =====
-- No write changes the size or the byte order of a memory.
use progs.Prelude.{ℕ, ◌≡◌, refl, ◌∙◌, Bool, true, false, ltb, if◌then◌else◌}
use progs.Prelude.Word.{u8}
use progs.Util.{Target}
use progs.Memory.{
  Memory, Access, done, refused, fault, ◌>>=◌, store, allocated, update, memory_write_byte,
  memory_write_half, memory_write_word,
}

abbrev pub SameBlock : Memory → Memory → Type 0
SameBlock m n = (n.size ≡ m.size) × (n.is_big_endian ≡ m.is_big_endian)

-- The memory writes.
abbrev pub EndsAccess : Memory → Access Memory → Type 0
EndsAccess m (done n) = SameBlock m n
EndsAccess m refused = Unit {0}
EndsAccess m fault = Unit {0}

store-EndsAccess : (m : Memory) (i v : ℕ) → EndsAccess m (store m i v)
unfolding store
store-EndsAccess m i v = either (ltb i (allocated m))
  where
    either :
        (b : Bool)
        → EndsAccess m (if b then done (record m { memo = update m.memo i (u8 v) }) else fault)
    either true = (refl, refl)
    either false = tt

then_EndsAccess :
    (m : Memory) (a : Access Memory) (k : Memory → Access Memory)
    → EndsAccess m a
    → ((n : Memory) → EndsAccess n (k n))
    → EndsAccess m (a >>= k)
then_EndsAccess m (done n) k (s, e) next = extended (k n) (next n)
  where
    extended : (a : Access Memory) → EndsAccess n a → EndsAccess m a
    extended (done n') (s', e') = (s' ∙ s, e' ∙ e)
    extended refused h = tt
    extended fault h = tt
then_EndsAccess m refused k h next = tt
then_EndsAccess m fault k h next = tt

refused_or :
    (m : Memory) (b : Bool) (a : Access Memory)
    → EndsAccess m a
    → EndsAccess m (if b then refused else a)
refused_or m true a h = tt
refused_or m false a h = h

module _ (t : Target) (m : Memory) (address value : ℕ) where
  pub memory_write_byte-EndsAccess : EndsAccess m (memory_write_byte t m address value)
  unfolding memory_write_byte
  memory_write_byte-EndsAccess = refused_or m _ _ (store-EndsAccess m _ _)

  pub memory_write_half-EndsAccess : EndsAccess m (memory_write_half t m address value)
  unfolding memory_write_half
  memory_write_half-EndsAccess =
      refused_or m _ _
        (then_EndsAccess m _ _ (store-EndsAccess m _ _) (λ m1. store-EndsAccess m1 _ _))

  pub memory_write_word-EndsAccess : EndsAccess m (memory_write_word t m address value)
  unfolding memory_write_word
  memory_write_word-EndsAccess = refused_or m _ _ (
      then_EndsAccess m _ _ (store-EndsAccess m _ _) (λ m1.
        then_EndsAccess m1 _ _ (store-EndsAccess m1 _ _)
          (λ m2. then_EndsAccess m2 _ _ (store-EndsAccess m2 _ _) (λ m3. store-EndsAccess m3 _ _))))
