-- ===== src/SendIrq/Delivery.antt =====
-- What a name that is given to send_irq.c does to the simulator that it is sent to.
use progs.Prelude.{
  ℕ, zero, suc, ◌%◌, ◌<◌, ◌≡◌, refl, sym, ap, ◌∙◌, arith, ◌==◌, if◌then◌else◌, Bool, some, List,
  ◌∷◌,
}
use progs.Prelude.Word.{u16}
use progs.Util.{Target}
use progs.Exception.{reset}
use progs.Exception.Reset.{restarted, arm_exception_lem}
use progs.Constants.{Name, arm_get_exception_name, irq_of}
use progs.Constants.Names.{irq_of-arm_get_exception_name, irq_for, exception_or_none}
use progs.Gdb.{Gdb, replied, of_run, and_then, pure}
use progs.Gdb.Scan.{atoi}
use progs.Gdb.Commands.{with_core}
use progs.Simulator.{interrupt, turn}
use progs.SendIrq.{sends, sends_or_ends, main}

-- Only exception 0 has no name.
numbered :
    (e : ℕ) (name : Name) → arm_get_exception_name e ≡ some name → exception_or_none e ≡ some e
unfolding arm_get_exception_name
numbered zero name found = cc
numbered (suc e) name found = refl

named : (e : ℕ) (name : Name) → e < 8 → arm_get_exception_name e ≡ some name → irq_of name ≡ some e
named e name h found =
    sym (ap irq_for found) ∙ irq_of-arm_get_exception_name e h ∙ numbered e name found

module _ (t : Target) (target_big_endian : Bool) (fuel : ℕ) where
  -- Given a port and the name of an exception, send_irq sends its number to that port. The
  -- simulator that receives it resets its core if the exception is RESET, and does nothing else for
  -- the others, INTERRUPT among them.
  pub main-turn :
      (host port name : Name) (rest : List Name) (e : ℕ) (buffer : List ℕ) (g : Gdb)
      → e < 8
      → arm_get_exception_name e ≡ some name
      → (main (host ∷ port ∷ name ∷ rest) ≡ sends (u16 (atoi port)) e)
        × (turn t target_big_endian fuel (interrupt e) buffer g
            ≡ replied buffer (with_core (if e == reset then restarted g.arm else g.arm) g))
  unfolding main turn
  main-turn host port name rest e buffer g h found =
      let same : e % 256 ≡ e = omega arith in
      (
        ap (sends_or_ends (u16 (atoi port))) (named e name h found),
        rw same (ap (λ r. and_then (of_run g r) (λ u. pure buffer)) (arm_exception_lem e g.arm)),
      )
