-- ===== src/Memory.antt =====
-- memory.c: simulated memory with byte, half and word accesses in either byte order.
-- Memory is the block that `memory_create` allocates, as a function from an index to a byte; an
-- access outside the block is a `fault`, since C gives it no meaning.
pub mod Endian
pub mod Frame
pub mod Layout
pub mod Outcome
pub mod RoundTrip
pub mod Typed
use progs.Prelude.{
  ℕ, zero, suc, ◌+◌, ◌-◌, ◌*◌, ◌/◌, ◌%◌, ◌<◌, Bool, true, false, ◌||◌, not, List, [], ◌∷◌, ltb,
  ◌==◌, ◌!=◌, if◌then◌else◌,
}
use progs.Prelude.Lists.{get_or, set}
use progs.Prelude.Word.{u8, u16, u32, ◌>>>◌, ◌<<<◌}
use progs.Util.{Target}

-- `struct memory_data`.
pub record Memory : Type 0 where
  pub size : ℕ
  pub memo : ℕ → ℕ
  pub is_big_endian : Bool

-- What an access comes to: done (return 0), refused (return -1), or outside the block.
pub data Access (A : Type 0) : Type 0 where
  done : A → Access A
  refused fault : Access A

infixl 5 ◌>>=◌
abbrev pub ◌>>=◌ : {A B : Type 0} → Access A → (A → Access B) → Access B
done a >>= k = k a
refused >>= k = refused
fault >>= k = fault

-- The bytes in the block: `malloc(sizeof(uint8_t) * 4 * size)`, in size_t.
abbrev pub allocated : Memory → ℕ
allocated m = 4 * m.size % 18446744073709551616

-- `content` is what the fresh block holds.
unfoldable pub memory_create : (content : ℕ → ℕ) → ℕ → Bool → Memory
memory_create content size is_big_endian = record {
  size = size;
  memo = λ i. u8 (content i);
  is_big_endian = is_big_endian;
}

unfoldable pub memory_get_size : Memory → ℕ
memory_get_size m = m.size

-- `memo[i]` read and written.
unfoldable pub load : Memory → ℕ → Access ℕ
load m i = if ltb i (allocated m) then done (m.memo i) else fault

abbrev pub update : (ℕ → ℕ) → ℕ → ℕ → ℕ → ℕ
update f i v j = if j == i then v else f j

unfoldable pub store : Memory → ℕ → ℕ → Access Memory
store m i v =
    if ltb i (allocated m) then done (record m { memo = update m.memo i (u8 v) }) else fault

-- A uint32_t and the four bytes that the host keeps it in.
abbrev pub to_bytes : Target → ℕ → List ℕ
to_bytes t v =
    let b0 = u8 v in
    let b1 = u8 (v >>> 8) in
    let b2 = u8 (v >>> 16) in
    let b3 = u8 (v >>> 24) in
    if t.host_big_endian then b3 ∷ b2 ∷ b1 ∷ b0 ∷ [] else b0 ∷ b1 ∷ b2 ∷ b3 ∷ []

abbrev pub of_bytes : Target → List ℕ → ℕ
of_bytes t bytes =
    let b = λ (i : ℕ). get_or bytes i 0 in
    if t.host_big_endian
    then b 0 * 16777216 + b 1 * 65536 + b 2 * 256 + b 3
    else b 3 * 16777216 + b 2 * 65536 + b 1 * 256 + b 0

-- `for (i = 0; i < sizeOf; i++) *(--destination) = *(source++);`
abbrev pub reverse_loop : ℕ → (source destination : ℕ) → (value resultat : List ℕ) → List ℕ
reverse_loop zero source destination value resultat = resultat
reverse_loop (suc n) source destination value resultat =
    reverse_loop n (source + 1) (destination - 1) value
      (set resultat (destination - 1) (get_or value source 0))

-- `taille == 8||16||32` holds for every `taille`, as 16 and 32 are not zero; the other branch
-- returns -1.
unfoldable pub reverse_endianess : Target → ℕ → ℕ → ℕ
reverse_endianess t value taille =
    if taille == 8 || 16 != 0 || 32 != 0
    then (let sizeOf = if taille == 8 then 1 else if taille == 16 then 2 else 4 in
        let value' = if taille == 8 then u8 value else value in
        of_bytes t (reverse_loop sizeOf 0 sizeOf (to_bytes t value') (0 ∷ 0 ∷ 0 ∷ 0 ∷ [])))
    else 0xFFFFFFFF

-- `address < 0` never holds of a uint32_t.
unfoldable pub memory_read_byte : Target → Memory → ℕ → Access ℕ
memory_read_byte t m address = if ltb m.size (address / 4) then refused else do
  value ← load m address
  done (if m.is_big_endian then value else u8 (reverse_endianess t value 8))

unfoldable pub memory_read_half : Target → Memory → ℕ → Access ℕ
memory_read_half t m address =
    if ltb m.size (address / 4) || ltb 2 (address % 4) then refused else do
      b0 ← load m address
      b1 ← load m (u32 (address + 1))
      let value = u16 (b0 <<< 8 + b1)
      done (if m.is_big_endian then value else u16 (reverse_endianess t value 16))

unfoldable pub memory_read_word : Target → Memory → ℕ → Access ℕ
memory_read_word t m address =
    if ltb m.size (address / 4) || ltb 0 (address % 4) then refused else do
      b0 ← load m address
      b1 ← load m (u32 (address + 1))
      b2 ← load m (u32 (address + 2))
      b3 ← load m (u32 (address + 3))
      let value = u32 (b0 <<< 24 + b1 <<< 16 + b2 <<< 8 + b3)
      done (if m.is_big_endian then value else u32 (reverse_endianess t value 32))

unfoldable pub memory_write_byte : Target → Memory → ℕ → ℕ → Access Memory
memory_write_byte t m address value =
    if ltb m.size (address / 4)
    then refused
    else store m address (if m.is_big_endian then value else u8 (reverse_endianess t value 8))

unfoldable pub memory_write_half : Target → Memory → ℕ → ℕ → Access Memory
memory_write_half t m address value =
    if ltb m.size (address / 4) || ltb 2 (address % 4) then refused else do
      let value' = if m.is_big_endian then value else u16 (reverse_endianess t value 16)
      m1 ← store m address (value' >>> 8)
      store m1 (u32 (address + 1)) (value' % 256)

unfoldable pub memory_write_word : Target → Memory → ℕ → ℕ → Access Memory
memory_write_word t m address value =
    if ltb m.size (address / 4) || ltb 0 (address % 4) then refused else do
      let value' = if m.is_big_endian then value else u32 (reverse_endianess t value 32)
      m1 ← store m address (value' >>> 24)
      m2 ← store m1 (u32 (address + 1)) ((value' >>> 16) % 256)
      m3 ← store m2 (u32 (address + 2)) ((value' >>> 8) % 256)
      store m3 (u32 (address + 3)) (value' % 256)
