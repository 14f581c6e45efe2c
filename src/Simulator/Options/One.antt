-- ===== src/Simulator/Options/One.antt =====
-- What one option of arm_simulator.c does, letter by letter.
use progs.Prelude.{
  ℕ, ◌≡◌, refl, inl, inr, Bool, false, Bool-cases, Option, none, some, arith, ◌==◌, List, [], ◌∷◌,
}
use progs.Prelude.Word.{test_bit}
use progs.Prelude.Bits.{test_bit-or}
use Prim.Native.Nat.{max, bit_or}
use progs.Trace.{trace_add}
use progs.Debug.{Debugged, add_debug_to}
use progs.Simulator.{Settings, Opt, option, with_debugged}
use progs.Simulator.Options.{IsFlagged, After}

pub no_flag : (x : ℕ) → x ≡ max x 0
no_flag x = omega arith

abbrev pub one : (letter : ℕ) (optarg : List ℕ) → List Opt
one letter optarg = (letter, optarg) ∷ []

module _ (opens : List ℕ → Bool) (s : Settings) (optarg : List ℕ) where
  unflagged : (i : ℕ) → IsFlagged i s s false
  unflagged i = no_flag (test_bit s.trace.trace_flags i)

  abbrev pub At : (letter : ℕ) → Type 0
  At letter = After opens (one letter optarg) s (option opens (letter, optarg) s)

  At-g : At b'g'
  unfolding option
  At-g = (refl, (refl, refl, refl, unflagged 0, unflagged 1, unflagged 2, unflagged 3))

  At-i : At b'i'
  unfolding option
  At-i = (refl, (refl, refl, refl, unflagged 0, unflagged 1, unflagged 2, unflagged 3))

  At-h : At b'h'
  unfolding option
  At-h = (refl, inl refl)

  At-t : At b't'
  unfolding option
  At-t = elim (Bool-cases (opens optarg)) [
    | inl h ↦
        rw h (rw h refl, (refl, refl, refl, unflagged 0, unflagged 1, unflagged 2, unflagged 3))
    | inr h ↦ rw h (rw h refl, inr refl)
  ]

  At-d : At b'd'
  unfolding option
  At-d = with_it (add_debug_to optarg s.debugged)
    where
      with_it : (d : Option Debugged) → After opens (one b'd' optarg) s (with_debugged s d)
      with_it none = refl
      with_it (some d) =
          (refl, (refl, refl, refl, unflagged 0, unflagged 1, unflagged 2, unflagged 3))

  added :
      (i flag : ℕ)
      → test_bit (bit_or s.trace.trace_flags flag) i
        ≡ max (test_bit s.trace.trace_flags i) (test_bit flag i)
  added i flag = test_bit-or i s.trace.trace_flags flag

  At-r : At b'r'
  unfolding option trace_add
  At-r = (refl, (refl, refl, refl, added 0 2, added 1 2, added 2 2, added 3 2))

  At-m : At b'm'
  unfolding option trace_add
  At-m = (refl, (refl, refl, refl, added 0 1, added 1 1, added 2 1, added 3 1))

  At-s : At b's'
  unfolding option trace_add
  At-s = (refl, (refl, refl, refl, added 0 4, added 1 4, added 2 4, added 3 4))

  At-p : At b'p'
  unfolding option trace_add
  At-p = (refl, (refl, refl, refl, added 0 8, added 1 8, added 2 8, added 3 8))

  or_else : (letter l : ℕ) → At l → (letter == l ≡ false → At letter) → At letter
  or_else letter l h k = elim (Bool-cases (letter == l)) [
    | inl e ↦ let same : letter ≡ l = ground arith in rw same h
    | inr e ↦ k e
  ]

  pub At-any : (letter : ℕ) → At letter
  unfolding option
  At-any letter = or_else letter b'g' At-g λ g. or_else letter b'i' At-i λ i.
      or_else letter b'h' At-h λ h. or_else letter b't' At-t λ t. or_else letter b'r' At-r λ r.
        or_else letter b'm' At-m λ m. or_else letter b's' At-s λ x. or_else letter b'p' At-p λ p.
          or_else letter b'd' At-d
            λ d. rw (g, i, h, t, r, m, x, p, d) (rw (t, g, i, r, m, x, p, d) refl, inr refl)
