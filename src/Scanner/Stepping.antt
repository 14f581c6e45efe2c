-- ===== src/Scanner/Stepping.antt =====
-- The packets s and c of a debugger: single steps to a breakpoint, and a run to it.
use progs.Prelude.{
  ℕ, zero, suc, ◌<◌, ◌≡◌, refl, ap, ◌∙◌, Bool, true, arith, List, [], ◌∷◌, ◌++◌, ◌==◌,
  if◌then◌else◌,
}
use progs.Util.{Target}
use progs.Core.{ArmCore}
use progs.Core
use progs.Instruction.{arm_step}
use progs.Gdb.{
  Gdb, Event, Reply, replied, and_then, checksum, framed, gdb_send_data, gdb_send_stop_reason,
}
use progs.Gdb.Text.{s04, s05, s10}
use progs.Gdb.Handlers.{step, cont}
use progs.Gdb.Commands.{answered, send_lem}
use progs.Gdb.Continue.{Until, stops, goes_on, cont_lem}
use progs.Gdb.Packet.{handler}
use progs.Gdb.Packet.Checksum.{dispatched, ended}
use progs.Scanner.{yylex}
use progs.Scanner.Tokens.{is_body}
use progs.Scanner.Resync.{yylex-framed}
use progs.Scanner.Session.{acknowledged}

abbrev pub reason_text : ℕ → List ℕ
reason_text e = if e == 2 then s04 else if e == 4 then s10 else if e == 5 then s10 else s05

pub stop_reason_lem :
    (g : Gdb) → gdb_send_stop_reason g ≡ replied tt (answered (reason_text g.target_exception) g)
unfolding gdb_send_stop_reason gdb_send_data
stop_reason_lem g = send_lem (reason_text g.target_exception) g (ground arith)

-- The run does not depend on what was sent.
abbrev with_output : (packet : List ℕ) (events : List Event) → Gdb → Gdb
with_output packet events g = record g { packet = packet; events = events }

with_output-Until :
    (t : Target) (packet : List ℕ) (events : List Event) (g' : Gdb) (n : ℕ) (g : Gdb)
    → Until t g' n g
    → Until t (with_output packet events g') n (with_output packet events g)
with_output-Until t packet events g' _ g (stops word sees here) = stops word sees here
with_output-Until t packet events g' _ g (goes_on {n} word result q sees not_here ran run) =
    goes_on word result q sees not_here ran
      (with_output-Until t packet events g' n (record g { arm = q; target_exception = result }) run)

-- The core and the result of the last step of `h` are those of `g'`.
abbrev pub Stopped : (g' h : Gdb) → Type 0
Stopped g' h = (h.arm ≡ g'.arm) × (h.target_exception ≡ g'.target_exception)

-- `n` packets s.
abbrev pub step_packets : (n : ℕ) → (rest : List ℕ) → List ℕ
step_packets zero rest = rest
step_packets (suc n) rest = framed (b's' ∷ []) ++ step_packets n rest

-- The data of a packet of one character.
abbrev pub alone : ℕ → List ℕ
alone c = ended [] 0 (checksum (c ∷ []))

module _ (t : Target) (target_big_endian : Bool) (fuel : ℕ) where
  dispatched-s :
      (g : Gdb)
      → dispatched t target_big_endian fuel (b'$' ∷ b's' ∷ alone b's') g
        ≡ step t target_big_endian (alone b's') (acknowledged g)
  unfolding handler
  dispatched-s g = refl

  pub dispatched-c :
      (g : Gdb)
      → dispatched t target_big_endian fuel (b'$' ∷ b'c' ∷ alone b'c') g
        ≡ cont t target_big_endian fuel (alone b'c') (acknowledged g)
  unfolding handler
  dispatched-c g = refl

  -- The state after a step to the core `q`.
  abbrev stepped : (q : ArmCore) (result : ℕ) → Gdb → Gdb
  stepped q result g =
      answered (reason_text result) (record (acknowledged g) { arm = q; target_exception = result })

  one_step :
      (q : ArmCore) (result : ℕ) (g : Gdb)
      → arm_step t g.arm ≡ Core.ok result q
      → step t target_big_endian (alone b's') (acknowledged g) ≡ replied tt (stepped q result g)
  unfolding step
  one_step q result g run =
      rw run (stop_reason_lem (record (acknowledged g) { arm = q; target_exception = result }))

  pub at_once :
      (d : List ℕ) (rest : List ℕ) (g h : Gdb)
      → is_body d ≡ true
      → dispatched t target_big_endian fuel (b'$' ∷ ended d 0 (checksum d)) g ≡ replied tt h
      → yylex t target_big_endian fuel (framed d ++ rest) [] g
        ≡ yylex t target_big_endian fuel rest [] h
  at_once d rest g h body done =
      yylex-framed t target_big_endian fuel d rest g body
      ∙ ap (λ (r : Reply (Unit {0})). and_then r (λ u. yylex t target_big_endian fuel rest [])) done

  by_steps :
      (n : ℕ) (rest : List ℕ) (g g' : Gdb)
      → Until t g' n g
      → (h : Gdb) × Stopped g' h
        × (yylex t target_big_endian fuel (step_packets n rest) [] g
            ≡ yylex t target_big_endian fuel rest [] h)
  by_steps zero rest g g' (stops word sees here) = (g', (refl, refl), refl)
  by_steps (suc n) rest g g' (goes_on word result q sees not_here ran run) =
      let g1 = stepped q result g in
      let (h, same, rests) = by_steps n rest g1 (with_output g1.packet g1.events g') (
        with_output-Until t g1.packet g1.events g' n
          (record g { arm = q; target_exception = result }) run) in
      (
        h,
        same,
        at_once (b's' ∷ []) (step_packets n rest) g g1 refl
              (dispatched-s g ∙ one_step q result g ran)
            ∙ rests,
      )

  at_breakpoint :
      (n : ℕ) (rest : List ℕ) (g g' : Gdb)
      → Until t g' n g
      → n < fuel
      → (h : Gdb) × Stopped g' h
        × (yylex t target_big_endian fuel (framed (b'c' ∷ []) ++ rest) [] g
            ≡ yylex t target_big_endian fuel rest [] h)
  at_breakpoint n rest g g' run enough =
      let g1 = acknowledged g in
      let g1' = with_output g1.packet g1.events g' in
      (
        answered (reason_text g'.target_exception) g1',
        (refl, refl),
        at_once (b'c' ∷ []) rest g (answered (reason_text g'.target_exception) g1') refl (
            dispatched-c g
            ∙ cont_lem t target_big_endian g1' g1 n fuel (alone b'c')
                (with_output-Until t g1.packet g1.events g' n g run) enough
            ∙ stop_reason_lem g1'),
      )

  -- When `n` steps from `g` lead to a breakpoint and meet none before it, `n` packets s and, with
  -- more fuel than `n`, one packet c end in states with the same core and the same last result:
  -- those at the breakpoint. The scan goes on with what follows the packets.
  pub stepping_lem :
      (n : ℕ) (rest : List ℕ) (g g' : Gdb)
      → Until t g' n g
      → n < fuel
      → (h k : Gdb) × Stopped g' h
        × Stopped g' k
        × (yylex t target_big_endian fuel (step_packets n rest) [] g
            ≡ yylex t target_big_endian fuel rest [] h)
        × (yylex t target_big_endian fuel (framed (b'c' ∷ []) ++ rest) [] g
            ≡ yylex t target_big_endian fuel rest [] k)
  stepping_lem n rest g g' run enough =
      let (h, same, by_s) = by_steps n rest g g' run in
      let (k, same', by_c) = at_breakpoint n rest g g' run enough in (h, k, same, same', by_s, by_c)
