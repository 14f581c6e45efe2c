-- ===== src/Trace.antt =====
-- trace.c: which accesses are reported, and from where. A report is kept as its fields; their text
-- is not modelled. `int` values are words.
-- The reports are those of the default format, without ARM_TRACE_FORMAT.
pub mod Locations
pub mod Accesses
use progs.Prelude.{
  ℕ, ◌+◌, ◌%◌, Bool, true, false, ◌&&◌, Option, none, some, bit_and, bit_or, ltb, ◌==◌,
  if◌then◌else◌, is_set, of_bool, List, [], ◌∷◌, ◌++◌,
}
use progs.Prelude.Word.{u32, sub32}
use progs.Constants.{Name, arm_get_mode_name, arm_get_register_name}

-- A file and a line, if the position is asked for and there is one.
abbrev pub Position : Type 0
Position = Option (Name × ℕ)

pub data Report : Type 0 where
  memory_line : (position : Position) (cycle seq type size cause address value : ℕ) → Report
  register_line :
      (position : Position) (cycle type : ℕ) (register : Name) (mode : Option Name) (value : ℕ)
      → Report
  state_lines : Report

-- The static variables, and what was written to `output`.
pub record Trace : Type 0 where
  pub last_address : ℕ
  pub enabled : Bool
  pub location_file_stack : ℕ → Name
  pub location_line_stack : ℕ → ℕ
  pub location_stack_top : ℕ
  pub trace_flags : ℕ
  pub output : List Report

abbrev pub initial : Trace
initial = record {
  last_address = 0x12345678;
  enabled = true;
  location_file_stack = λ i. [];
  location_line_stack = λ i. 0;
  location_stack_top = 0xFFFFFFFF;
  trace_flags = 0;
  output = [];
}

-- Whether `trace_flags & flag` holds while the trace is enabled.
abbrev pub traces : Trace → (flag : ℕ) → Bool
traces s flag = s.enabled && is_set (bit_and s.trace_flags flag)

-- `none` is a write outside the stacks of 128 entries.
unfoldable pub trace_start_location : (file : Name) (line : ℕ) → Trace → Option Trace
trace_start_location file line s =
    let top = u32 (s.location_stack_top + 1) in
    if s.enabled
    then (if ltb top 128
        then some (record s {
          location_stack_top = top;
          location_file_stack = λ i. if i == top then file else s.location_file_stack i;
          location_line_stack = λ i. if i == top then line else s.location_line_stack i;
        })
        else none)
    else some s

-- It returns 0.
unfoldable pub trace_end_location : Trace → Trace
trace_end_location s =
    if s.enabled then record s { location_stack_top = sub32 s.location_stack_top 1 } else s

-- `none` is a read outside the stacks: `top >= 0` holds of the words below 2 ^ 31.
unfoldable pub trace_print_location : Trace → Option Position
trace_print_location s =
    if traces s 8 && ltb s.location_stack_top 2147483648
    then (if ltb s.location_stack_top 128
        then some (
            some (
              s.location_file_stack s.location_stack_top,
              s.location_line_stack s.location_stack_top,
            ))
        else none)
    else some none

abbrev pub memory_report :
    Option Position → (cycle seq type size cause address value : ℕ) → Trace → Option Trace
memory_report none cycle seq type size cause address value s = none
memory_report (some position) cycle seq type size cause address value s = some (record s {
  last_address = address;
  output = s.output ++ (memory_line position cycle seq type size cause address value ∷ []);
})

unfoldable pub trace_memory : (cycle type size cause address value : ℕ) → Trace → Option Trace
trace_memory cycle type size cause address value s =
    if traces s 1
    then (let seq = of_bool (address == u32 (s.last_address + 4)) in
        memory_report (trace_print_location s) cycle seq type size cause address value s)
    else some s

abbrev pub register_report :
    Option Position
    → Option Name
    → Option (Option Name)
    → (cycle type value : ℕ) → Trace
    → Option Trace
register_report none register mode cycle type value s = none
register_report (some position) none mode cycle type value s = none
register_report (some position) (some register) none cycle type value s = none
register_report (some position) (some register) (some mode) cycle type value s =
    some (record s {
      output = s.output ++ (register_line position cycle type register mode value ∷ []);
    })

unfoldable pub trace_register : (cycle type reg mode value : ℕ) → Trace → Option Trace
trace_register cycle type reg mode value s =
    if traces s 2
    then register_report (trace_print_location s) (arm_get_register_name reg)
        (arm_get_mode_name mode) cycle type value s
    else some s

unfoldable pub trace_arm_state : Trace → Trace
trace_arm_state s = if traces s 4 then record s { output = s.output ++ (state_lines ∷ []) } else s

pub trace_disable : Trace → Trace
trace_disable s = record s { enabled = false }

pub trace_enable : Trace → Trace
trace_enable s = record s { enabled = true }

unfoldable pub trace_add : (flags : ℕ) → Trace → Trace
trace_add flags s = record s { trace_flags = bit_or s.trace_flags flags }
