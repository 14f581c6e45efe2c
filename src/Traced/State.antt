-- ===== src/Traced/State.antt =====
-- arm_print_state of arm_core.c: what it prints, as the fields of each fprintf. It reads through the
-- traced accesses of the same file.
pub mod Print
use progs.Prelude.{
  ℕ, zero, suc, ◌+◌, ◌%◌, Bool, ◌&&◌, ◌||◌, Option, none, some, ltb, ◌==◌, ◌!=◌, if◌then◌else◌,
  List, [], ◌∷◌, ◌++◌,
}
use progs.Core.{ArmCore}
use progs.Constants.{Name, arm_get_mode_name, arm_get_register_name}
use progs.Trace.{Trace}
use progs.Traced.{
  T, Traced, finished, outside, pure, and_then, ◌>>=◌, ◌>>◌, arm_read_register,
  arm_read_usr_register, arm_read_cpsr,
}

-- `pad` is a new line with four blanks, and `gap` is ten blanks.
pub data Item : Type 0 where
  heading : Name → Item
  register : Name → (value : ℕ) → Item
  status : (value : ℕ) → Item
  pad newline gap : Item

abbrev pub pad_before : (count : ℕ) → List Item
pad_before count = if ltb 0 count && count % 5 == 0 then pad ∷ [] else []

-- A name outside the array of names is undefined.
abbrev pub some_or_outside : {A : Type 0} → Option A → T A
some_or_outside none p s = outside
some_or_outside (some a) p s = finished a p s

-- `for (reg = 0; reg < 16; reg++)`, with the rounds left; `count` is `reg` in every mode but USR,
-- which does not use it.
abbrev pub registers_loop : (mode : ℕ) → (rounds reg : ℕ) → T (List Item)
registers_loop mode zero reg = pure []
registers_loop mode (suc rounds) reg = do
  name ← some_or_outside (arm_get_register_name reg)
  value ← (if mode == 0x10 then arm_read_usr_register reg else arm_read_register reg)
  rest ← registers_loop mode rounds (reg + 1)
  pure (pad_before reg ++ (register name value ∷ rest))

-- The `switch` at the end of a mode.
abbrev pub line_end : (mode : ℕ) → List Item
line_end mode =
    if mode == 0x10 || mode == 0x11 || mode == 0x13 || mode == 0x1b
    then newline ∷ []
    else if mode == 0x12 || mode == 0x17
    then gap ∷ []
    else []

abbrev pub mode_items : (mode : ℕ) → Option Name → T (List Item)
mode_items mode none = pure []
mode_items mode (some name) = do
  registers ← registers_loop mode 16 0
  flags ← (if mode == 0x10 then (do cpsr ← arm_read_cpsr; pure (status cpsr ∷ [])) else pure [])
  pure ((if mode != 0x1f then heading name ∷ [] else []) ++ (registers ++ (flags ++ line_end mode)))

-- `for (mode = 0; mode < 32; mode++)`, with the rounds left.
abbrev pub modes_loop : (rounds mode : ℕ) → T (List Item)
modes_loop zero mode = pure []
modes_loop (suc rounds) mode = do
  name ← some_or_outside (arm_get_mode_name mode)
  items ← mode_items mode name
  rest ← modes_loop rounds (mode + 1)
  pure (items ++ rest)

unfoldable pub arm_print_state : T (List Item)
arm_print_state = modes_loop 32 0
