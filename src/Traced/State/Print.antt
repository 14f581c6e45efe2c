-- ===== src/Traced/State/Print.antt =====
-- What arm_print_state of arm_core.c prints, and that it prints it whatever is traced.
use progs.Prelude.{
  ℕ, zero, suc, ◌+◌, ◌<◌, ◌≤◌, ◌≡◌, refl, ap, ◌∙◌, Bool-cases, inl, inr, arith, Option, none, some,
  lt→ltb, ◌==◌, ◌!=◌, if◌then◌else◌, List, [], ◌∷◌, ◌++◌,
}
use progs.Prelude.Lists.{get_or}
use progs.Core
use progs.Core.{ArmCore, ok}
use progs.Core.RegisterFile.{reg_at, read-ok, read_register-ok}
use progs.Constants.{
  Name, arm_get_mode_name, arm_get_register_name, arm_register_names, arm_mode_names,
}
use progs.Trace.{Trace}
use progs.Traced.{
  T, Traced, finished, pure, and_then, ◌>>=◌, of_run, arm_read_register, arm_read_usr_register,
  arm_read_cpsr,
}
use progs.Traced.Follows.{IsInside, SameSettings, Follows, IsInside-after, same_after}
use progs.Traced.Accesses.{
  arm_read_register-Follows, arm_read_usr_register-Follows, arm_read_cpsr-Follows,
}
use progs.Traced.State.{
  Item, heading, register, status, newline, gap, pad_before, line_end, registers_loop, mode_items,
  modes_loop, arm_print_state, some_or_outside,
}

-- `m` ends with this value, leaves the core alone and keeps the settings of the trace.
pub record Prints {A : Type 0} (p : ArmCore) (m : T A) (a : A) : Type 0 where
  pub on : (s : Trace) → IsInside s → (s' : Trace) × SameSettings s s' × (m p s ≡ finished a p s')

status_read : (p : ArmCore) → Core.arm_read_cpsr p ≡ ok p.reg.cpsr p
unfolding Core.arm_read_cpsr
status_read p = refl

module _ (p : ArmCore) where
  Prints-pure : {A : Type 0} → (a : A) → Prints p (pure a) a
  Prints-pure a = record { on = λ s inside. (s, (refl, refl, refl), refl) }

  Prints-then :
      {A B : Type 0} (m : T A) (k : A → T B) (a : A) (b : B)
      → Prints p m a
      → Prints p (k a) b
      → Prints p (m >>= k) b
  Prints-then m k a b h next = record {
    on = λ s inside.
        let (s', same, result) = h.on s inside in
        let (s'', same', result') = next.on s' (IsInside-after s s' same inside) in
        (s'', same_after s s' s'' same same', ap (λ (r : Traced _). and_then r k) result ∙ result');
  }

  Prints-read : (m : T ℕ) (n : Core.M ℕ) (v : ℕ) → Follows m n → n p ≡ ok v p → Prints p m v
  Prints-read m n v h read = record {
    on = λ s inside.
        let (s', same, result) = h.at p s inside in (s', same, result ∙ ap (of_run s') read);
  }

  reg_printed :
      (mode reg : ℕ)
      → reg < 16
      → Prints p
          (if mode == 0x10 then arm_read_usr_register reg else arm_read_register reg)
          (reg_at p reg)
  reg_printed mode reg h = elim (Bool-cases (mode == 0x10)) [
    | inl usr ↦ rw usr (
        Prints-read (arm_read_usr_register reg) (Core.arm_read_usr_register reg) (reg_at p reg)
          (arm_read_usr_register-Follows reg h) (read-ok p reg h))
    | inr other ↦ rw other (
        Prints-read (arm_read_register reg) (Core.arm_read_register reg) (reg_at p reg)
          (arm_read_register-Follows reg h) (read_register-ok p reg h))
  ]

  -- The registers from `reg` on, as each mode shows them.
  abbrev pub shown : (rounds reg : ℕ) → List Item
  shown zero reg = []
  shown (suc rounds) reg =
      pad_before reg
      ++ (register (get_or arm_register_names reg []) (reg_at p reg) ∷ shown rounds (reg + 1))

  name_printed :
      (reg : ℕ)
      → reg < 16
      → Prints p (some_or_outside (arm_get_register_name reg)) (get_or arm_register_names reg [])
  unfolding arm_get_register_name
  name_printed reg h = record {
    on = λ s inside. rw (lt→ltb reg 18 (omega arith)) (s, (refl, refl, refl), refl);
  }

  registers_printed :
      (mode rounds reg : ℕ)
      → rounds + reg ≤ 16
      → Prints p (registers_loop mode rounds reg) (shown rounds reg)
  registers_printed mode zero reg h = Prints-pure []
  registers_printed mode (suc rounds) reg h = Prints-then _ _ _ _ (name_printed reg (omega arith)) (
      Prints-then _ _ _ _ (reg_printed mode reg (omega arith)) (
        Prints-then _ _ _ _ (registers_printed mode rounds (reg + 1) (omega arith))
          (Prints-pure _)))

  abbrev flags_shown : (mode : ℕ) → List Item
  flags_shown mode = if mode == 0x10 then status p.reg.cpsr ∷ [] else []

  flags_printed :
      (mode : ℕ)
      → Prints p
          (if mode == 0x10 then (arm_read_cpsr >>= λ cpsr. pure (status cpsr ∷ [])) else pure [])
          (flags_shown mode)
  flags_printed mode = elim (Bool-cases (mode == 0x10)) [
    | inl usr ↦ rw usr (
        Prints-then arm_read_cpsr _ p.reg.cpsr _
          (Prints-read arm_read_cpsr Core.arm_read_cpsr p.reg.cpsr arm_read_cpsr-Follows
            (status_read p))
          (Prints-pure _))
    | inr other ↦ rw other (Prints-pure [])
  ]

  abbrev mode_shown : (mode : ℕ) → Option Name → List Item
  mode_shown mode none = []
  mode_shown mode (some name) =
      (if mode != 0x1f then heading name ∷ [] else [])
      ++ (shown 16 0 ++ (flags_shown mode ++ line_end mode))

  mode_printed :
      (mode : ℕ) (name : Option Name) → Prints p (mode_items mode name) (mode_shown mode name)
  mode_printed mode none = Prints-pure []
  mode_printed mode (some name) =
      Prints-then _ _ _ _ (registers_printed mode 16 0 (omega arith))
        (Prints-then _ _ _ _ (flags_printed mode) (Prints-pure _))

  mode_name_printed :
      (mode : ℕ)
      → mode < 32
      → Prints p (some_or_outside (arm_get_mode_name mode)) (get_or arm_mode_names mode none)
  unfolding arm_get_mode_name
  mode_name_printed mode h = record {
    on = λ s inside. rw (lt→ltb mode 32 h) (s, (refl, refl, refl), refl);
  }

  abbrev modes_shown : (rounds mode : ℕ) → List Item
  modes_shown zero mode = []
  modes_shown (suc rounds) mode =
      mode_shown mode (get_or arm_mode_names mode none) ++ modes_shown rounds (mode + 1)

  modes_printed :
      (rounds mode : ℕ)
      → rounds + mode ≤ 32
      → Prints p (modes_loop rounds mode) (modes_shown rounds mode)
  modes_printed zero mode h = Prints-pure []
  modes_printed (suc rounds) mode h = Prints-then _ _ _ _ (mode_name_printed mode (omega arith)) (
      Prints-then _ _ _ _ (mode_printed mode (get_or arm_mode_names mode none))
        (Prints-then _ _ _ _ (modes_printed rounds (mode + 1) (omega arith)) (Prints-pure _)))

  -- A mode's name, the sixteen registers, and what follows them.
  abbrev pub mode_text : Name → List Item → List Item
  mode_text name after = heading name ∷ (shown 16 0 ++ after)

  -- The seven modes.
  abbrev pub state_text : List Item
  state_text =
      mode_text (85 ∷ 83 ∷ 82 ∷ []) (status p.reg.cpsr ∷ newline ∷ [])
      ++ (mode_text (70 ∷ 73 ∷ 81 ∷ []) (newline ∷ [])
          ++ (mode_text (73 ∷ 82 ∷ 81 ∷ []) (gap ∷ [])
              ++ (mode_text (83 ∷ 86 ∷ 67 ∷ []) (newline ∷ [])
                  ++ (mode_text (65 ∷ 66 ∷ 84 ∷ []) (gap ∷ [])
                      ++ (mode_text (85 ∷ 78 ∷ 68 ∷ []) (newline ∷ []) ++ shown 16 0)))))

  -- arm_print_state prints the sixteen registers for each of the seven modes, and the status word in
  -- the first: the same registers each time, as no mode has its own. It leaves the core alone, and
  -- ends whatever is traced.
  pub arm_print_state_lem : Prints p arm_print_state state_text
  unfolding arm_print_state
  arm_print_state_lem = modes_printed 32 0 (omega arith)
