-- ===== src/Simulator/Options.antt =====
-- An independent account of the options of arm_simulator.c: which are accepted, and what is set.
pub mod One
pub mod All
use progs.Prelude.{
  ℕ, ◌≡◌, refl, sym, ap, ◌∙◌, ◌⊎◌, inl, inr, Bool, true, false, Bool-cases, ◌&&◌, ◌||◌, Option,
  none, some, arith, ◌==◌, ◌!=◌, if◌then◌else◌, of_bool, List, [], ◌∷◌,
}
use progs.Prelude.Word.{u16, test_bit}
use progs.Prelude.Bits.{test_bit-or}
use Prim.Native.Nat.{max, bit_or}
use progs.Trace.{Trace, trace_add}
use progs.Debug.{Debugged, add_debug_to}
use progs.Gdb.Scan.{atoi}
use progs.Simulator.{
  Settings, Parsed, goes_on, exits, overrun, Opt, option, options, then_parsed, with_debugged,
}

-- Whether one of the options has this letter.
abbrev pub has : (letter : ℕ) → List Opt → Bool
has letter [] = false
has letter ((opt, optarg) ∷ os) = opt == letter || has letter os

-- The argument of the last option with this letter.
abbrev pub last_of : (letter : ℕ) → List Opt → Option (List ℕ) → Option (List ℕ)
last_of letter [] found = found
last_of letter ((opt, optarg) ∷ os) found =
    last_of letter os (if opt == letter then some optarg else found)

abbrev pub port_of : (port : ℕ) → Option (List ℕ) → ℕ
port_of port none = port
port_of port (some optarg) = u16 (atoi optarg)

-- The options that do not end the program.
abbrev pub accepts : (opens : List ℕ → Bool) → Opt → Bool
accepts opens (opt, optarg) =
    if opt == b't'
    then opens optarg
    else opt == b'g'
      || opt == b'i'
      || opt == b'r'
      || opt == b'm'
      || opt == b's'
      || opt == b'p'
      || opt == b'd'

abbrev pub accepted : (opens : List ℕ → Bool) → List Opt → Bool
accepted opens [] = true
accepted opens (o ∷ os) = accepts opens o && accepted opens os

-- The bit `i` of the trace flags is set if it was, or as the option says.
abbrev pub IsFlagged : (i : ℕ) → Settings → Settings → (given : Bool) → Type 0
IsFlagged i s s' given =
    test_bit s'.trace.trace_flags i ≡ max (test_bit s.trace.trace_flags i) (of_bool given)

-- What the options do to the settings.
abbrev pub Does : List Opt → Settings → Settings → Type 0
Does os s s' =
    (s'.gdb_port ≡ port_of s.gdb_port (last_of b'g' os none))
    × (s'.irq_port ≡ port_of s.irq_port (last_of b'i' os none))
    × (s'.trace_file ≡ last_of b't' os s.trace_file)
    × IsFlagged 0 s s' (has b'm' os)
    × IsFlagged 1 s s' (has b'r' os)
    × IsFlagged 2 s s' (has b's' os)
    × IsFlagged 3 s s' (has b'p' os)

abbrev pub After : (opens : List ℕ → Bool) → List Opt → Settings → Parsed → Type 0
After opens os s (goes_on s') = (accepted opens os ≡ true) × Does os s s'
After opens os s (exits status) = (accepted opens os ≡ false) × ((status ≡ 0) ⊎ (status ≡ 1))
After opens os s overrun = has b'd' os ≡ true
