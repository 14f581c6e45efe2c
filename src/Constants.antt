-- ===== src/Constants.antt =====
-- arm_constants.c: the names of exceptions, modes and registers, as lists of character codes; and the
-- search that send_irq.c makes in them.
pub mod Names
use progs.Prelude.{ℕ, zero, suc, ◌+◌, Option, none, some, ltb, ◌==◌, if◌then◌else◌, List, [], ◌∷◌}
use progs.Prelude.Lists.{get_or}
use progs.Gdb.Text.{same_string}

abbrev pub Name : Type 0
Name = List ℕ

-- NULL, reset, undefined instruction, software interrupt, prefetch abort, data abort, interr
abbrev pub arm_exception_names : List (Option Name)
arm_exception_names =
    none
    ∷ some (114 ∷ 101 ∷ 115 ∷ 101 ∷ 116 ∷ [])
    ∷ some (
        117 ∷ 110 ∷ 100 ∷ 101 ∷ 102 ∷ 105 ∷ 110 ∷ 101 ∷ 100 ∷ 32 ∷ 105 ∷ 110 ∷ 115 ∷ 116 ∷ 114 ∷ 117
        ∷ 99 ∷ 116 ∷ 105 ∷ 111 ∷ 110 ∷ [])
    ∷ some (
        115 ∷ 111 ∷ 102 ∷ 116 ∷ 119 ∷ 97 ∷ 114 ∷ 101 ∷ 32 ∷ 105 ∷ 110 ∷ 116 ∷ 101 ∷ 114 ∷ 114 ∷ 117
        ∷ 112 ∷ 116 ∷ [])
    ∷ some (112 ∷ 114 ∷ 101 ∷ 102 ∷ 101 ∷ 116 ∷ 99 ∷ 104 ∷ 32 ∷ 97 ∷ 98 ∷ 111 ∷ 114 ∷ 116 ∷ [])
    ∷ some (100 ∷ 97 ∷ 116 ∷ 97 ∷ 32 ∷ 97 ∷ 98 ∷ 111 ∷ 114 ∷ 116 ∷ [])
    ∷ some (105 ∷ 110 ∷ 116 ∷ 101 ∷ 114 ∷ 114 ∷ 117 ∷ 112 ∷ 116 ∷ [])
    ∷ some (102 ∷ 97 ∷ 115 ∷ 116 ∷ 32 ∷ 105 ∷ 110 ∷ 116 ∷ 101 ∷ 114 ∷ 114 ∷ 117 ∷ 112 ∷ 116 ∷ [])
    ∷ []

-- Modes 16 to 19, 23, 27 and 31 have names.
abbrev pub arm_mode_names : List (Option Name)
arm_mode_names =
    none
    ∷ none
    ∷ none
    ∷ none
    ∷ none
    ∷ none
    ∷ none
    ∷ none
    ∷ none
    ∷ none
    ∷ none
    ∷ none
    ∷ none
    ∷ none
    ∷ none
    ∷ none
    ∷ some (85 ∷ 83 ∷ 82 ∷ [])
    ∷ some (70 ∷ 73 ∷ 81 ∷ [])
    ∷ some (73 ∷ 82 ∷ 81 ∷ [])
    ∷ some (83 ∷ 86 ∷ 67 ∷ [])
    ∷ none
    ∷ none
    ∷ none
    ∷ some (65 ∷ 66 ∷ 84 ∷ [])
    ∷ none
    ∷ none
    ∷ none
    ∷ some (85 ∷ 78 ∷ 68 ∷ [])
    ∷ none
    ∷ none
    ∷ none
    ∷ some (83 ∷ 89 ∷ 83 ∷ [])
    ∷ []

abbrev pub arm_register_names : List Name
arm_register_names =
    (82 ∷ 48 ∷ 48 ∷ [])
    ∷ (82 ∷ 48 ∷ 49 ∷ [])
    ∷ (82 ∷ 48 ∷ 50 ∷ [])
    ∷ (82 ∷ 48 ∷ 51 ∷ [])
    ∷ (82 ∷ 48 ∷ 52 ∷ [])
    ∷ (82 ∷ 48 ∷ 53 ∷ [])
    ∷ (82 ∷ 48 ∷ 54 ∷ [])
    ∷ (82 ∷ 48 ∷ 55 ∷ [])
    ∷ (82 ∷ 48 ∷ 56 ∷ [])
    ∷ (82 ∷ 48 ∷ 57 ∷ [])
    ∷ (82 ∷ 49 ∷ 48 ∷ [])
    ∷ (82 ∷ 49 ∷ 49 ∷ [])
    ∷ (82 ∷ 49 ∷ 50 ∷ [])
    ∷ (83 ∷ 80 ∷ [])
    ∷ (76 ∷ 82 ∷ [])
    ∷ (80 ∷ 67 ∷ [])
    ∷ (67 ∷ 80 ∷ 83 ∷ 82 ∷ [])
    ∷ (83 ∷ 80 ∷ 83 ∷ 82 ∷ [])
    ∷ []

unfoldable pub arm_get_exception_name : ℕ → Option Name
arm_get_exception_name exception =
    if ltb exception 8 then get_or arm_exception_names exception none else none

-- The outer `none` is an index outside the array.
unfoldable pub arm_get_mode_name : ℕ → Option (Option Name)
arm_get_mode_name mode = if ltb mode 32 then some (get_or arm_mode_names mode none) else none

unfoldable pub arm_get_register_name : ℕ → Option Name
arm_get_register_name reg = if ltb reg 18 then some (get_or arm_register_names reg []) else none

-- The `while` of send_irq.c over the exceptions' names, from `irq`, with the rounds left; the
-- result is the number found, and `none` the exit with an unknown name. The names end after 7.
abbrev pub found_at : ℕ → Name → Option Name → Option ℕ → Option ℕ
found_at irq name none next = none
found_at irq name (some candidate) next = if same_string candidate name then some irq else next

unfoldable pub irq_loop : (rounds irq : ℕ) → Name → Option ℕ
irq_loop zero irq name = none
irq_loop (suc rounds) irq name =
    found_at irq name (arm_get_exception_name irq) (irq_loop rounds (irq + 1) name)

-- The exception that send_irq sends for a name.
unfoldable pub irq_of : Name → Option ℕ
irq_of name = irq_loop 8 1 name
