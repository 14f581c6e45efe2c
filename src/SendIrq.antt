-- ===== src/SendIrq.antt =====
-- send_irq.c: the client that sends the simulator an interrupt. What it does is the byte it writes
-- to a port, or the status it exits with; the host's name and the socket are not modelled.
pub mod Delivery
use progs.Prelude.{ℕ, Option, none, some, List, [], ◌∷◌}
use progs.Prelude.Word.{u16}
use progs.Constants.{Name, irq_of}
use progs.Gdb.Scan.{atoi}

pub data Outcome : Type 0 where
  sends : (port irq : ℕ) → Outcome
  ends : (status : ℕ) → Outcome

abbrev pub sends_or_ends : (port : ℕ) → Option ℕ → Outcome
sends_or_ends port none = ends 2
sends_or_ends port (some irq) = sends port irq

-- The arguments after the program's name. INTERRUPT is 6.
unfoldable pub main : (args : List Name) → Outcome
main [] = ends 1
main (host ∷ []) = ends 1
main (host ∷ port ∷ []) = sends (u16 (atoi port)) 6
main (host ∷ port ∷ name ∷ args) = sends_or_ends (u16 (atoi port)) (irq_of name)
