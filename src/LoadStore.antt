-- ===== src/LoadStore.antt =====
-- arm_load_store.c: single and multiple transfers between registers and memory.
pub mod Multiple
pub mod Fields
pub mod Addressing
pub mod Byte
pub mod Word
pub mod Half
use progs.Prelude.{
  ℕ, zero, suc, ◌+◌, ◌-◌, ◌*◌, ◌%◌, Bool, ◌&&◌, ◌||◌, Option, none, some, bit_and, bit_or, ◌==◌,
  ◌!=◌, if◌then◌else◌, is_set, is_clear,
}
use progs.Prelude.Word.{u8, u16, u32, sub32, ◌<<<◌, ◌>>>◌}
use progs.Util.{Target, shl, shr, asr, ror}
use progs.Exception.{undefined_instruction}
use progs.Core.{
  M, pure, gets, ◌>>=◌, ◌>>◌, minus_one, arm_read_usr_register, arm_write_usr_register,
  arm_read_byte, arm_read_half, arm_read_word, arm_write_byte, arm_write_half, arm_write_word,
}

-- A local that a refused read leaves unassigned.
abbrev pub or_unassigned : Option ℕ → ℕ → ℕ
or_unassigned none junk = junk
or_unassigned (some value) junk = value

module _ (t : Target) where
  abbrev pub junk : M ℕ
  junk = gets (λ p. t.unassigned p.cycle_count)

  unfoldable pub arm_load_store_h : ℕ → M ℕ
  arm_load_store_h ins = do
    let p_bit = (ins >>> 24) % 2
    let u_bit = (ins >>> 23) % 2
    let w_bit = (ins >>> 21) % 2
    let i_bit = (ins >>> 22) % 2
    let l_bit = (ins >>> 20) % 2
    let rn_bit = (ins >>> 16) % 16
    let rd_bit = (ins >>> 12) % 16
    let immed_l = ins % 16
    let immed_h = (ins >>> 8) % 16
    rn_adr ← arm_read_usr_register rn_bit
    offset ←
        if is_set i_bit
        then pure (bit_or (immed_h <<< 4) immed_l)
        else arm_read_usr_register immed_l
    let address = if is_set u_bit then u32 (rn_adr + offset) else sub32 rn_adr offset
    if is_set l_bit
        then (do
          mot ← arm_read_half t address
          junk' ← junk
          arm_write_usr_register rd_bit (or_unassigned mot (u16 junk')))
        else (do
          rd ← arm_read_usr_register rd_bit
          code ← arm_write_half t address (rd % 65536)
          pure tt)
    if is_clear p_bit || is_set p_bit && is_set w_bit
        then arm_write_usr_register rn_bit address
        else pure tt
    pure 0

  unfoldable pub ldr_ldrb : (b_bit temp rd_bit rn_bit : ℕ) → M (Unit {0})
  ldr_ldrb b_bit temp rd_bit rn_bit = do
    junk' ← junk
    if is_set b_bit
        then (do
          mot ← arm_read_byte t temp
          arm_write_usr_register rd_bit (or_unassigned mot (u8 junk')))
        else (do
          mot ← arm_read_word t temp
          let word = or_unassigned mot (u32 junk')
          if rd_bit == 15
              then arm_write_usr_register 15 (bit_and word 0xFFFFFFFE)
              else arm_write_usr_register rd_bit word)
    arm_write_usr_register rn_bit temp

  unfoldable pub str_strb : (b_bit temp rd_bit : ℕ) → M (Unit {0})
  str_strb b_bit temp rd_bit = do
    rd ← arm_read_usr_register rd_bit
    code ← if is_set b_bit then arm_write_byte t temp (rd % 256) else arm_write_word t temp rd
    pure tt

  -- The shifted register offset: the `switch` on the two bits of `shift_T`.
  unfoldable pub shifted_offset : (rm shift_t shift_im : ℕ) → ℕ
  shifted_offset rm shift_t shift_im =
      if shift_t == 0
      then shl t rm shift_im
      else if shift_t == 1
      then shr t rm shift_im
      else if shift_t == 2
      then asr t rm shift_im
      else ror t rm shift_im

  unfoldable pub arm_load_store : ℕ → M ℕ
  arm_load_store ins = do
    let p_bit = (ins >>> 24) % 2
    let u_bit = (ins >>> 23) % 2
    let w_bit = (ins >>> 21) % 2
    let i_bit = (ins >>> 25) % 2
    let l_bit = (ins >>> 20) % 2
    let b_bit = (ins >>> 22) % 2
    let rn_bit = (ins >>> 16) % 16
    let rd_bit = (ins >>> 12) % 16
    let offset = ins % 4096
    rn_adr ← arm_read_usr_register rn_bit
    if is_set i_bit
        then (do
          rm ← arm_read_usr_register (ins % 16)
          let offset_reg = shifted_offset rm ((ins >>> 5) % 4) ((ins >>> 7) % 32)
          let temp = if is_set u_bit then u32 (rn_adr + offset_reg) else sub32 rn_adr offset_reg
          if is_set l_bit then ldr_ldrb b_bit temp rd_bit rn_bit else str_strb b_bit temp rd_bit)
        else (do
          let temp = if is_set u_bit then u32 (rn_adr + offset) else sub32 rn_adr offset
          if is_set l_bit
              then (do
                ldr_ldrb b_bit temp rd_bit rn_bit
                if is_set p_bit && is_set w_bit
                    then arm_write_usr_register rn_bit temp
                    else pure tt)
              else (do
                str_strb b_bit temp rd_bit
                if is_clear p_bit || is_set p_bit && is_set w_bit
                    then arm_write_usr_register rn_bit temp
                    else pure tt))
    pure 0

-- `for (i = 1; i < 16; i++)`, with the rounds left.
pub count_loop : ℕ → (bit cpt : ℕ) → ℕ
count_loop zero bit cpt = cpt
count_loop (suc n) bit cpt = count_loop n (bit >>> 1) (if bit % 2 == 0 then cpt else cpt + 1)

unfoldable pub number_of_registers : ℕ → ℕ
unfolding count_loop
number_of_registers bit = count_loop 15 bit 0

-- `start_address` and `end_address`; `base` is the register's value, and `bit_23` is 0 or 2 (the
-- other cases are not reached from `arm_load_store_multiple`).
unfoldable pub init_addresses : (base bit_23 register_list : ℕ) → ℕ × ℕ
unfolding number_of_registers
init_addresses base bit_23 register_list =
    let size = number_of_registers register_list * 4 in
    if bit_23 == 0
    then (u32 (sub32 base size + 4), base)
    else if bit_23 == 1
    then (base, sub32 (u32 (base + size)) 4)
    else if bit_23 == 2
    then (sub32 base size, sub32 base 4)
    else (u32 (base + 4), u32 (base + size))

pub arm_coprocessor_load_store : ℕ → M ℕ
arm_coprocessor_load_store ins = pure undefined_instruction
