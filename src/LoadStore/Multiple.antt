-- ===== src/LoadStore/Multiple.antt =====
-- `number_of_registers` and `arm_load_store_multiple`.
use progs.Prelude.{
  ℕ, zero, suc, ◌+◌, ◌*◌, ◌/◌, ◌%◌, ◌^◌, ◌<◌, ◌≡◌, ◌⊎◌, refl, ap, ◌∙◌, Option, none, some, true,
  false, arith, bit_and, ◌!=◌, if◌then◌else◌, is_set,
}
use progs.Prelude.Word.{word_size, u8, u32, sub32, ◌>>>◌, test_bit}
use progs.Prelude.Bits.{bit_and_step, test_bit-suc}
use progs.Prelude.Masks.{bit_and-zero}
use progs.Util.{Target}
use progs.Core.{
  ArmCore, ok, M, pure, ◌>>=◌, ◌>>◌, minus_one, arm_read_usr_register, arm_write_usr_register,
  arm_read_word, arm_write_word,
}
use progs.Core.RegisterFile.{reg_at, read-ok}
use progs.LoadStore.{count_loop, number_of_registers, init_addresses, or_unassigned, junk}
use native.Mathlib.Nat.{zero-div, zero-add}

-- The number of set bits among the low `n`.
unfoldable pub count_bits : (n x : ℕ) → ℕ
count_bits zero x = 0
count_bits (suc n) x = test_bit x n + count_bits n x

count_bits-suc : (n x : ℕ) → count_bits (suc n) x ≡ x % 2 + count_bits n (x / 2)
unfolding count_bits
count_bits-suc zero x = omega arith
count_bits-suc (suc n) x = omega (arith, count_bits-suc n x, test_bit-suc x n)

count_loop_lem : (n x cpt : ℕ) → count_loop n x cpt ≡ cpt + count_bits n x
unfolding count_loop count_bits
count_loop_lem zero x cpt = omega arith
count_loop_lem (suc n) x cpt =
    ground
      (arith, count_bits-suc n x, count_loop_lem n (x / 2) cpt, count_loop_lem n (x / 2) (cpt + 1))

-- `number_of_registers` counts the set bits among the low fifteen; bit 15 is not counted.
pub number_of_registers_lem : (x : ℕ) → number_of_registers x ≡ count_bits 15 x
unfolding number_of_registers
number_of_registers_lem x = count_loop_lem 15 x 0 ∙ zero-add (count_bits 15 x)

bit_and_even : (a b : ℕ) → bit_and a (2 * b) ≡ 2 * bit_and (a / 2) b
bit_and_even a b = omega (arith, bit_and_step a (2 * b), ap (bit_and (a / 2)) (half b))
  where
    half : (n : ℕ) → 2 * n / 2 ≡ n
    half n = omega arith

-- The return value of a read.
abbrev code_of : Option ℕ → ℕ
code_of none = minus_one
code_of (some value) = 0

module _ (t : Target) where
  -- `for (i = 0; i < 15; i++)` of the load, with the rounds left. The register that is written is
  -- the low byte of register `i`, and what is written is the return value of the read.
  unfoldable pub load_loop : ℕ → (i register_list address value : ℕ) → M (ℕ × ℕ)
  load_loop zero i register_list address value = pure (address, value)
  load_loop (suc n) i register_list address value = elim (is_set ((register_list >>> i) % 2)) [
    | true ↦ do
      index ← arm_read_usr_register i
      word ← arm_read_word t address
      arm_write_usr_register (u8 index) (code_of word)
      load_loop n (i + 1) register_list (u32 (address + 4)) (or_unassigned word value)
    | false ↦ load_loop n (i + 1) register_list address value
  ]

  -- The same loop of the store: the address is the unassigned `value`, and the register stored is
  -- the one that register `rd` names.
  unfoldable pub store_loop : ℕ → (i register_list rd address value : ℕ) → M ℕ
  store_loop zero i register_list rd address value = pure address
  store_loop (suc n) i register_list rd address value = elim (is_set ((register_list >>> i) % 2)) [
    | true ↦ do
      index ← arm_read_usr_register rd
      stored ← arm_read_usr_register (u8 index)
      result ← arm_write_word t value stored
      store_loop n (i + 1) register_list rd (u32 (address + 4)) value
    | false ↦ store_loop n (i + 1) register_list rd address value
  ]

  -- The load's step for the program counter: `value` is read before it is assigned again.
  unfoldable pub load_pc : (register_list address value : ℕ) → M (Unit {0})
  load_pc register_list address value =
      if is_set ((register_list >>> 15) % 2)
      then (do
        word ← arm_read_word t address
        arm_write_usr_register (u8 value) (code_of word)
        arm_write_usr_register 15 (bit_and (or_unassigned word value) 0xFFFFFFFE))
      else pure tt

  -- The two loops; the result is the address after the last transfer.
  unfoldable pub transfer : (l_bit rd_bit register_list address value : ℕ) → M ℕ
  unfolding load_loop store_loop load_pc
  transfer l_bit rd_bit register_list address value =
      if is_set l_bit
      then (do
        (address', value') ← load_loop 15 0 register_list address value
        load_pc register_list address' value'
        pure address')
      else store_loop 15 0 register_list rd_bit address value

  -- The `uint8_t` of `ins & 65536` is 0, and `RN_bit` after the transfer is not used.
  unfoldable pub arm_load_store_multiple : ℕ → M ℕ
  unfolding transfer
  arm_load_store_multiple ins = do
    let bit_23 = bit_and (ins >>> 23) 2
    let register_list = u8 (bit_and ins 65536)
    let rn_bit = (ins >>> 16) % 16
    let l_bit = (ins >>> 20) % 2
    let rd_bit = (ins >>> 12) % 2
    base ← arm_read_usr_register rn_bit
    value ← junk t
    let (start_address, end_address) = init_addresses base bit_23 register_list
    address ← transfer l_bit rd_bit register_list start_address (u32 value)
    pure (if end_address != sub32 address 4 then 1 else 0)

  -- The register list of every instruction is 0: bit 16 does not fit a uint8_t.
  empty_list : (ins : ℕ) → u8 (bit_and ins 65536) ≡ 0
  empty_list ins = omega (
    arith,
    bit_and_even ins 32768,
    bit_and_even (ins / 2) 16384,
    bit_and_even (ins / 2 / 2) 8192,
    bit_and_even (ins / 2 / 2 / 2) 4096,
    bit_and_even (ins / 2 / 2 / 2 / 2) 2048,
    bit_and_even (ins / 2 / 2 / 2 / 2 / 2) 1024,
    bit_and_even (ins / 2 / 2 / 2 / 2 / 2 / 2) 512,
    bit_and_even (ins / 2 / 2 / 2 / 2 / 2 / 2 / 2) 256,
  )

  increment_bit : (x : ℕ) → (bit_and x 2 ≡ 0) ⊎ (bit_and x 2 ≡ 2)
  increment_bit x = omega (
    arith,
    bit_and_step x 2,
    bit_and_step (x / 2) 1,
    bit_and-zero (x / 2 / 2) (x / 2 / 2) (omega arith),
  )

  -- The transfer over an empty list starts 4 bytes after its end.
  empty_addresses :
      (base bit_23 : ℕ)
      → base < word_size
      → (bit_23 ≡ 0) ⊎ (bit_23 ≡ 2)
      → let (start_address, end_address) = init_addresses base bit_23 0 in
        end_address ≡ sub32 start_address 4
  unfolding init_addresses
  empty_addresses base bit_23 h e = ground arith

  load_loop-zero : (n i a v : ℕ) (p : ArmCore) → load_loop n i 0 a v p ≡ ok (a, v) p
  unfolding load_loop
  load_loop-zero zero i a v p = refl
  load_loop-zero (suc n) i a v p = ground (arith, zero-div (2 ^ i), load_loop-zero n (i + 1) a v p)

  store_loop-zero : (n i rd a v : ℕ) (p : ArmCore) → store_loop n i 0 rd a v p ≡ ok a p
  unfolding store_loop
  store_loop-zero zero i rd a v p = refl
  store_loop-zero (suc n) i rd a v p =
      ground (arith, zero-div (2 ^ i), store_loop-zero n (i + 1) rd a v p)

  transfer-zero : (l rd a v : ℕ) (p : ArmCore) → transfer l rd 0 a v p ≡ ok a p
  unfolding transfer
  transfer-zero l rd a v p = ground arith

  -- LDM and STM transfer nothing, whatever the instruction says: the function returns 0 and leaves
  -- registers and memory as they were. The base register holds a word.
  pub arm_load_store_multiple_lem :
      (ins : ℕ) (p : ArmCore)
      → reg_at p (ins / 65536 % 16) < word_size
      → arm_load_store_multiple ins p ≡ ok 0 p
  unfolding arm_load_store_multiple
  arm_load_store_multiple_lem ins p h =
      let rn = ins / 65536 % 16 in
      let base = reg_at p rn in
      let addresses =
        empty_addresses base (bit_and (ins / 8388608) 2) h (increment_bit (ins / 8388608)) in
      rw (read-ok p rn (omega arith), empty_list ins, transfer-zero) (ground arith)
