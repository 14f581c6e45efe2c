-- ===== src/Gdb/Frame.antt =====
-- What every command of gdb_protocol.c keeps: the shape of the memory, and the form of what is
-- sent.
use progs.Prelude.{
  ℕ, ◌+◌, ◌≤◌, ◌≡◌, refl, ◌∙◌, ◌⊎◌, inl, inr, Bool, true, false, ltb, arith, Bool-cases, Option,
  none, some, if◌then◌else◌, List, [], ◌∷◌, ◌++◌,
}
use progs.Prelude.Lists.{length, length-++}
use progs.Core
use progs.Core.{ArmCore}
use progs.Core.Frame
use progs.Core.Frame.{SameFrame}
use progs.Memory
use progs.Memory.{Memory, Access}
use progs.Gdb.{
  G, Gdb, Reply, Event, sent, shut, replied, outside, aborted, running, pure, and_then, ◌>>=◌, gets,
  of_run, on_core, some_or_outside, assert, emit, gdb_transmit_packet, gdb_send_buffer,
  gdb_send_data, gdb_send_stop_reason, framed, checksum,
}
use progs.Gdb.Scan.{hex2}
use progs.Gdb.Handlers.{of_access}

-- The packet holds nothing yet, or data with its frame and sum that fits the 1024 bytes.
abbrev pub IsPacket : List ℕ → Type 0
IsPacket text = (text ≡ []) ⊎ ((d : List ℕ) × (text ≡ framed d) × (length text ≤ 1023))

-- An acknowledgement, a request for retransmission, a packet, or the end of the output.
abbrev pub IsSent : Event → Type 0
IsSent (sent text) = (text ≡ b'+' ∷ []) ⊎ ((text ≡ b'-' ∷ []) ⊎ IsPacket text)
IsSent shut = Unit {0}

abbrev pub AllSent : List Event → Type 0
AllSent [] = Unit {0}
AllSent (e ∷ es) = IsSent e × AllSent es

AllSent-++ : (es : List Event) (e : Event) → AllSent es → IsSent e → AllSent (es ++ (e ∷ []))
AllSent-++ [] e h k = (k, tt)
AllSent-++ (e' ∷ es) e (a, h) k = (a, AllSent-++ es e h k)

abbrev pub HasShape : (size : ℕ) (big : Bool) → ArmCore → Type 0
HasShape size big p = (p.mem.size ≡ size) × (p.mem.is_big_endian ≡ big)

abbrev pub IsSound : (size : ℕ) (big : Bool) → Gdb → Type 0
IsSound size big g = HasShape size big g.arm × IsPacket g.packet × AllSent g.events

-- A run that ends is in a sound state.
abbrev pub EndsSound : {A : Type 0} → (size : ℕ) (big : Bool) → Reply A → Type 0
EndsSound size big (replied a g) = IsSound size big g
EndsSound size big outside = Unit {0}
EndsSound size big aborted = Unit {0}
EndsSound size big running = Unit {0}

pub record Keeps {A : Type 0} (m : G A) : Type 0 where
  pub at : (size : ℕ) (big : Bool) (g : Gdb) → IsSound size big g → EndsSound size big (m g)

module _ {A B : Type 0} where
  pub continued :
      (size : ℕ) (big : Bool) (r : Reply A) (k : A → G B)
      → EndsSound size big r
      → ((a : A) → Keeps (k a))
      → EndsSound size big (and_then r k)
  continued size big (replied a g) k h next = (next a).at size big g h
  continued size big outside k h next = tt
  continued size big aborted k h next = tt
  continued size big running k h next = tt

  pub bind-Keeps : (m : G A) (k : A → G B) → Keeps m → ((a : A) → Keeps (k a)) → Keeps (m >>= k)
  bind-Keeps m k h next = record {
    at = λ size big g sound. continued size big (m g) k (h.at size big g sound) next;
  }

module _ {A : Type 0} where
  pub pure-Keeps : (a : A) → Keeps (pure a)
  pure-Keeps a = record { at = λ size big g h. h }

  pub gets-Keeps : (f : Gdb → A) → Keeps (gets f)
  gets-Keeps f = record { at = λ size big g h. h }

  pub if-Keeps : (b : Bool) (m n : G A) → Keeps m → Keeps n → Keeps (if b then m else n)
  if-Keeps true m n h k = h
  if-Keeps false m n h k = k

  pub some_or_outside-Keeps : (o : Option A) → Keeps (some_or_outside o)
  some_or_outside-Keeps none = record { at = λ size big g h. tt }
  some_or_outside-Keeps (some a) = record { at = λ size big g h. h }

  pub outside-Keeps : Keeps {A = A} (λ g. outside)
  outside-Keeps = record { at = λ size big g h. tt }

  pub running-Keeps : Keeps {A = A} (λ g. running)
  running-Keeps = record { at = λ size big g h. tt }

  of_run-Sound :
      (size : ℕ) (big : Bool) (g : Gdb) (p : ArmCore) (r : Core.Run A)
      → HasShape size big p
      → Core.Frame.Ends p r
      → IsSound size big g
      → EndsSound size big (of_run g r)
  of_run-Sound size big g p (Core.ok a q) (s, e) (_, s', e') (_, is, all) =
      ((s' ∙ s, e' ∙ e), is, all)
  of_run-Sound size big g p Core.fault shape same h = tt

  pub on_core-Keeps : (m : Core.M A) → Core.Frame.Keeps m → Keeps (on_core m)
  on_core-Keeps m h = record {
    at = λ size big g sound. of_run-Sound size big g g.arm (m g.arm) sound.0 (h.at g.arm) sound;
  }

  -- An operation that changes only the count before it.
  pub counted-Keeps :
      (m : Core.M A) (count : ArmCore → ℕ)
      → ((p : ArmCore) → Core.Frame.Ends (record p { cycle_count = count p }) (m p))
      → Keeps (on_core m)
  counted-Keeps m count h = record {
    at = λ size big g sound.
        of_run-Sound size big g (record (g.arm) { cycle_count = count g.arm }) (m g.arm) sound.0
          (h g.arm) sound;
  }

pub assert-Keeps : (b : Bool) → Keeps (assert b)
assert-Keeps true = record { at = λ size big g h. h }
assert-Keeps false = record { at = λ size big g h. tt }

pub emit-Keeps : (e : Event) → IsSent e → Keeps (emit e)
emit-Keeps e is = record {
  at = λ size big g (shape, packet, all). (shape, packet, AllSent-++ g.events e all is);
}

pub exception-Keeps :
    (result : ℕ) → Keeps (λ g. replied tt (record g { target_exception = result }))
exception-Keeps result = record { at = λ size big g h. h }

pub gdb_transmit_packet-Keeps : Keeps gdb_transmit_packet
gdb_transmit_packet-Keeps = record {
  at = λ size big g (shape, packet, all).
      (shape, packet, AllSent-++ g.events (sent g.packet) all (inr (inr packet)));
}

length-framed : (d : List ℕ) → length (framed d) ≡ length d + 4
length-framed d = let sum = length-++ d (b'#' ∷ hex2 (checksum d)) in omega (arith, sum)

send_buffer_at :
    (d : List ℕ) (size : ℕ) (big : Bool) (g : Gdb)
    → IsSound size big g
    → EndsSound size big (gdb_send_buffer d g)
unfolding gdb_send_buffer
send_buffer_at d size big g (shape, packet, all) = elim (Bool-cases (ltb 1024 (length d + 5))) [
  | inl over ↦ rw over tt
  | inr fits ↦
      let short : length (framed d) ≤ 1023 = ground (arith, length-framed d) in
      let is : IsPacket (framed d) = inr (d, refl, short) in
      rw fits (shape, is, AllSent-++ g.events (sent (framed d)) all (inr (inr is)))
]

pub gdb_send_buffer-Keeps : (d : List ℕ) → Keeps (gdb_send_buffer d)
gdb_send_buffer-Keeps d = record { at = send_buffer_at d }

pub ruleset sound_rules = (
  pure-Keeps, gets-Keeps, if-Keeps, some_or_outside-Keeps, outside-Keeps, running-Keeps,
  assert-Keeps, exception-Keeps, gdb_send_buffer-Keeps, bind-Keeps, on_core-Keeps,
)

pub gdb_send_data-Keeps : (d : List ℕ) → Keeps (gdb_send_data d)
unfolding gdb_send_data
gdb_send_data-Keeps d = gdb_send_buffer-Keeps d

pub gdb_send_stop_reason-Keeps : Keeps gdb_send_stop_reason
unfolding gdb_send_stop_reason
gdb_send_stop_reason-Keeps = search (sound_rules, gdb_send_data-Keeps)

pub of_access-Keeps : {A : Type 0} → (a : Access A) → Keeps (of_access a)
of_access-Keeps (Memory.done a) = pure-Keeps (some a)
of_access-Keeps Memory.refused = pure-Keeps none
of_access-Keeps Memory.fault = outside-Keeps
