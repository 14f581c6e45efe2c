-- ===== src/LoadStore/Fields.antt =====
-- The fields of an instruction of arm_load_store.c.
use progs.Prelude.{ℕ, ◌/◌, ◌%◌, Bool, ◌&&◌, ◌||◌, is_set, is_clear}

abbrev pub rn_of : ℕ → ℕ
rn_of ins = ins / 65536 % 16

abbrev pub rd_of : ℕ → ℕ
rd_of ins = ins / 4096 % 16

-- Bits 24 (P) and 21 (W) ask for the address to go back to the base register.
abbrev pub stores_back : ℕ → Bool
stores_back ins =
    is_clear (ins / 16777216 % 2) || is_set (ins / 16777216 % 2) && is_set (ins / 2097152 % 2)

-- Bit 20.
abbrev pub loads : ℕ → Bool
loads ins = is_set (ins / 1048576 % 2)
