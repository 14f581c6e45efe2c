-- ===== src/Simulator/Turns.antt =====
-- The turns of the two threads of arm_simulator.c: what they keep, in whatever order they come.
use progs.Prelude.{ℕ, refl, inl, inr, Bool, List, [], ◌∷◌, ◌++◌, ◌%◌}
use progs.Util.{Target}
use progs.Exception.{arm_exception}
use progs.Instruction.Frame.{arm_exception-Keeps}
use progs.Gdb.{
  G, Gdb, Event, Reply, replied, outside, aborted, running, and_then, ◌>>◌, pure, on_core,
}
use progs.Gdb.Frame.{Keeps, IsPacket, AllSent, IsSound, EndsSound, on_core-Keeps}
use progs.Gdb.Packet.{gdb_packet_analysis}
use progs.Gdb.Packet.Sound.{gdb_packet_analysis-Keeps}
use progs.Scanner.{Token, ack, nak, packet, other, echoed, action, handle_error}
use progs.Scanner.Noise.{Fits, Answers, Quiet, IsNoise, action-Quiet, handle_error-Quiet}
use progs.Simulator.{Turn, scanned, interrupt, turn, turns}

-- A run that ends is sound, and the buffer of errors is in its array.
abbrev pub EndsSafe : (size : ℕ) (big : Bool) → Reply (List ℕ) → Type 0
EndsSafe size big (replied buffer g) = IsSound size big g × Fits buffer
EndsSafe size big outside = Unit {0}
EndsSafe size big aborted = Unit {0}
EndsSafe size big running = Unit {0}

record Safe (m : List ℕ → G (List ℕ)) : Type 0 where
  on :
      (size : ℕ) (big : Bool) (buffer : List ℕ) (g : Gdb)
      → IsSound size big g
      → Fits buffer
      → EndsSafe size big (m buffer g)

then-Safe :
    (size : ℕ) (big : Bool) (r : Reply (List ℕ)) (k : List ℕ → G (List ℕ))
    → EndsSafe size big r
    → Safe k
    → EndsSafe size big (and_then r k)
then-Safe size big (replied buffer g) k (sound, fits) next = next.on size big buffer g sound fits
then-Safe size big outside k h next = tt
then-Safe size big aborted k h next = tt
then-Safe size big running k h next = tt

-- Then something that leaves the buffer alone.
then_kept :
    (size : ℕ) (big : Bool) (r : Reply (List ℕ)) (m : G (Unit {0}))
    → EndsSafe size big r
    → Keeps m
    → EndsSafe size big (and_then r (λ buffer. m >> pure buffer))
then_kept size big (replied buffer g) m (sound, fits) h = kept (m g) (h.at size big g sound)
  where
    kept :
        (r : Reply (Unit {0}))
        → EndsSound size big r
        → EndsSafe size big (and_then r (λ u. pure buffer))
    kept (replied u g') sound' = (sound', fits)
    kept outside h = tt
    kept aborted h = tt
    kept running h = tt
then_kept size big outside m h k = tt
then_kept size big aborted m h k = tt
then_kept size big running m h k = tt

Answers-AllSent :
    (last : List ℕ) (before es : List Event)
    → IsPacket last
    → AllSent before
    → Answers last es
    → AllSent (before ++ es)
Answers-AllSent last [] [] p h a = tt
Answers-AllSent last [] (e ∷ es) p h (inl ask, rest) =
    (rw ask (inr (inl refl)), Answers-AllSent last [] es p h rest)
Answers-AllSent last [] (e ∷ es) p h (inr again, rest) =
    (rw again (inr (inr p)), Answers-AllSent last [] es p h rest)
Answers-AllSent last (b ∷ before) es p (h, hs) a = (h, Answers-AllSent last before es p hs a)

pub Quiet-safe :
    (size : ℕ) (big : Bool) (g : Gdb) (r : Reply (List ℕ))
    → IsSound size big g
    → Quiet g r
    → EndsSafe size big r
Quiet-safe size big g r (shape, is, all) (buffer, es, fits, answers, same) =
    rw same ((shape, is, Answers-AllSent g.packet g.events es is all answers), fits)

exception_safe :
    (irq size : ℕ) (big : Bool) (buffer : List ℕ) (g : Gdb)
    → IsSound size big g
    → Fits buffer
    → EndsSafe size big ((on_core (arm_exception irq) >> pure buffer) g)
exception_safe irq size big buffer g sound fits =
    then_kept size big (replied buffer g) (on_core (arm_exception irq)) (sound, fits)
      (on_core-Keeps (arm_exception irq) (arm_exception-Keeps irq))

module _ (t : Target) (target_big_endian : Bool) (fuel : ℕ) where
  noise-Safe : (k : Token) → IsNoise k → Safe (action t target_big_endian fuel k)
  noise-Safe k n = record {
    on = λ size big buffer g sound fits.
        Quiet-safe size big g (action t target_big_endian fuel k buffer g) sound
          (action-Quiet t target_big_endian fuel k n buffer g fits);
  }

  action-Safe : (k : Token) → Safe (action t target_big_endian fuel k)
  unfolding action
  action-Safe (packet text) = record {
    on = λ size big buffer g sound fits.
        then_kept size big (handle_error buffer g)
          (gdb_packet_analysis t target_big_endian fuel text)
          (Quiet-safe size big g (handle_error buffer g) sound (handle_error-Quiet buffer g fits))
          (gdb_packet_analysis-Keeps t target_big_endian fuel text);
  }
  action-Safe ack = noise-Safe ack tt
  action-Safe nak = noise-Safe nak tt
  action-Safe (other c) = noise-Safe (other c) tt
  action-Safe (echoed c) = noise-Safe (echoed c) tt

  turn-Safe : (a : Turn) → Safe (turn t target_big_endian fuel a)
  unfolding turn
  turn-Safe (scanned k) = action-Safe k
  turn-Safe (interrupt irq) = record { on = exception_safe (irq % 256) }

  turns-Safe : (all : List Turn) → Safe (turns t target_big_endian fuel all)
  unfolding turns
  turns-Safe [] = record { on = λ size big buffer g sound fits. (sound, fits) }
  turns-Safe (a ∷ rest) = record {
    on = λ size big buffer g sound fits.
        then-Safe size big (turn t target_big_endian fuel a buffer g)
          (turns t target_big_endian fuel rest) ((turn-Safe a).on size big buffer g sound fits)
          (turns-Safe rest);
  }

  -- However the rules of the scanner and the interrupts alternate, a run that ends without leaving
  -- an array keeps the size and the byte order of the memory, leaves the buffer of errors within
  -- its array, and has sent nothing but acknowledgements, requests for retransmission and packets
  -- with their sum.
  pub turns_lem :
      (all : List Turn) (size : ℕ) (big : Bool) (buffer : List ℕ) (g : Gdb)
      → IsSound size big g
      → Fits buffer
      → EndsSafe size big (turns t target_big_endian fuel all buffer g)
  turns_lem all = (turns-Safe all).on
