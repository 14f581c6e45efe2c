-- ===== src/Simulator/Options/All.antt =====
-- What a list of options of arm_simulator.c comes to.
use progs.Prelude.{
  ℕ, ◌≡◌, refl, sym, ap, ◌∙◌, inl, inr, Bool, true, false, Bool-cases, ◌&&◌, ◌||◌, Option, none,
  some, arith, ◌==◌, if◌then◌else◌, of_bool, List, [], ◌∷◌,
}
use progs.Prelude.Word.{test_bit}
use Prim.Native.Nat.{max}
use progs.Simulator.{Settings, Parsed, goes_on, exits, overrun, Opt, option, options, then_parsed}
use progs.Simulator.Options.{has, last_of, port_of, accepts, accepted, IsFlagged, Does, After}
use progs.Simulator.Options.One.{At-any, no_flag}

-- The first that is there.
abbrev or_none : Option (List ℕ) → Option (List ℕ) → Option (List ℕ)
or_none none found = found
or_none (some x) found = some x

or_none_assoc : (a b c : Option (List ℕ)) → or_none (or_none a b) c ≡ or_none a (or_none b c)
or_none_assoc none b c = refl
or_none_assoc (some x) b c = refl

last_of-found :
    (letter : ℕ) (os : List Opt) (found : Option (List ℕ))
    → last_of letter os found ≡ or_none (last_of letter os none) found
last_of-found letter [] found = refl
last_of-found letter ((opt, optarg) ∷ os) found =
    let here = last_of-found letter os (some optarg) in
    let later = last_of-found letter os found in
    elim (Bool-cases (opt == letter)) [
      | inl h ↦ rw h (
          here
          ∙ sym (or_none_assoc (last_of letter os none) (some optarg) found)
          ∙ ap (λ (o : Option (List ℕ)). or_none o found) (sym here))
      | inr h ↦ rw h later
    ]

port_of-or_none :
    (port : ℕ) (a b : Option (List ℕ)) → port_of (port_of port b) a ≡ port_of port (or_none a b)
port_of-or_none port none b = refl
port_of-or_none port (some x) b = refl

-- One option and then the others.
port_after :
    (letter port port1 port' : ℕ) (o : Opt) (os : List Opt)
    → port1 ≡ port_of port (last_of letter (o ∷ []) none)
    → port' ≡ port_of port1 (last_of letter os none)
    → port' ≡ port_of port (last_of letter (o ∷ os) none)
port_after letter port port1 port' (opt, optarg) os h k =
    let first : Option (List ℕ) = if opt == letter then some optarg else none in
    k
    ∙ ap (λ (x : ℕ). port_of x (last_of letter os none)) h
    ∙ port_of-or_none port (last_of letter os none) first
    ∙ ap (port_of port) (sym (last_of-found letter os first))

flag_lem :
    (x : ℕ) (a b : Bool) → max (max x (of_bool (a || false))) (of_bool b) ≡ max x (of_bool (a || b))
flag_lem x true true = omega arith
flag_lem x true false = omega arith
flag_lem x false b = ap (λ (y : ℕ). max y (of_bool b)) (sym (no_flag x))

flag_after :
    (i : ℕ) (s s1 s' : Settings) (a b : Bool)
    → IsFlagged i s s1 (a || false)
    → IsFlagged i s1 s' b
    → IsFlagged i s s' (a || b)
flag_after i s s1 s' a b h k =
    k ∙ ap (λ (y : ℕ). max y (of_bool b)) h ∙ flag_lem (test_bit s.trace.trace_flags i) a b

Does-after :
    (o : Opt) (os : List Opt) (s s1 s' : Settings)
    → Does (o ∷ []) s s1
    → Does os s1 s'
    → Does (o ∷ os) s s'
Does-after (opt, optarg) os s s1 s' (g, i, f, m, r, x, p) (g', i', f', m', r', x', p') = (
  port_after b'g' s.gdb_port s1.gdb_port s'.gdb_port (opt, optarg) os g g',
  port_after b'i' s.irq_port s1.irq_port s'.irq_port (opt, optarg) os i i',
  f' ∙ ap (last_of b't' os) f,
  flag_after 0 s s1 s' (opt == b'm') (has b'm' os) m m',
  flag_after 1 s s1 s' (opt == b'r') (has b'r' os) r r',
  flag_after 2 s s1 s' (opt == b's') (has b's' os) x x',
  flag_after 3 s s1 s' (opt == b'p') (has b'p' os) p p',
)

both : (a b : Bool) → a && true ≡ true → b ≡ true → a && b ≡ true
both a b h k = ground arith

or_right : (a b : Bool) → b ≡ true → a || b ≡ true
or_right a b h = ground arith

or_left : (a b : Bool) → a || false ≡ true → a || b ≡ true
or_left a b h = ground arith

and_right : (a b : Bool) → b ≡ false → a && b ≡ false
and_right a b h = ground arith

and_left : (a b : Bool) → a && true ≡ false → a && b ≡ false
and_left a b h = ground arith

module _ (opens : List ℕ → Bool) (o : Opt) (os : List Opt) (s : Settings) where
  joined :
      (s1 : Settings) (r : Parsed)
      → After opens (o ∷ []) s (goes_on s1)
      → After opens os s1 r
      → After opens (o ∷ os) s r
  joined s1 (goes_on s') (a, d) (a', d') =
      (both (accepts opens o) (accepted opens os) a a', Does-after o os s s1 s' d d')
  joined s1 (exits status) (a, d) (a', is) =
      (and_right (accepts opens o) (accepted opens os) a', is)
  joined s1 overrun (a, d) h = or_right (o.0 == b'd') (has b'd' os) h

  extended :
      (r : Parsed)
      → After opens (o ∷ []) s r
      → ((s1 : Settings) → After opens os s1 (options opens os s1))
      → After opens (o ∷ os) s (then_parsed r (options opens os))
  extended (goes_on s1) h next = joined s1 (options opens os s1) h (next s1)
  extended (exits status) (a, is) next = (and_left (accepts opens o) (accepted opens os) a, is)
  extended overrun h next = or_left (o.0 == b'd') (has b'd' os) h

-- The options end the program, with status 0 or 1, only if one of them is not accepted, and an
-- array is overrun only if there is an option `d`. If they go on, all are accepted, each port is
-- the last that is given, modulo 2 ^ 16, or the one before, the trace goes to the last file, and
-- each kind of trace is on if it was or is asked for.
pub options_lem :
    (opens : List ℕ → Bool) (os : List Opt) (s : Settings) → After opens os s (options opens os s)
unfolding options
options_lem opens [] s =
    let kept = λ (i : ℕ). no_flag (test_bit s.trace.trace_flags i) in
    (refl, (refl, refl, refl, kept 0, kept 1, kept 2, kept 3))
options_lem opens ((opt, optarg) ∷ os) s =
    extended opens (opt, optarg) os s (option opens (opt, optarg) s) (At-any opens s optarg opt)
      (options_lem opens os)
