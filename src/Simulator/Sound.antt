-- ===== src/Simulator/Sound.antt =====
-- What a run of the simulator keeps, whatever comes on its connections.
use progs.Prelude.{ℕ, refl, inl, Bool, arith, List, []}
use progs.Prelude.Word.{u32}
use progs.Util.{Target}
use progs.Memory.{memory_create}
use progs.Core.{ArmCore}
use progs.Exception.Reset.{arm_create_lem}
use progs.Gdb.{Reply, replied, outside, aborted, running, and_then, ◌>>=◌, emit, shut}
use progs.Gdb.Frame.{HasShape, EndsSound, emit-Keeps}
use progs.Gdb.Packet.{gdb_init_data}
use progs.Scanner.{handle_error}
use progs.Scanner.Noise.{handle_error-Quiet}
use progs.Simulator.{Turn, turns, gdb_listener, started, simulate}
use progs.Simulator.Turns.{EndsSafe, Quiet-safe, turns_lem}

module _ (t : Target) (target_big_endian : Bool) (fuel : ℕ) where
  closed :
      (size : ℕ) (big : Bool) (r : Reply (List ℕ))
      → EndsSafe size big r
      → EndsSound size big (and_then r (λ buffer. handle_error buffer >>= λ b. emit shut))
  closed size big (replied buffer g) (sound, fits) =
      ended (handle_error buffer g)
        (Quiet-safe size big g (handle_error buffer g) sound (handle_error-Quiet buffer g fits))
    where
      ended :
          (r : Reply (List ℕ))
          → EndsSafe size big r
          → EndsSound size big (and_then r (λ b. emit shut))
      ended (replied b g') (sound', fits') = (emit-Keeps shut tt).at size big g' sound'
      ended outside h = tt
      ended aborted h = tt
      ended running h = tt
  closed size big outside h = tt
  closed size big aborted h = tt
  closed size big running h = tt

  from_core :
      (all : List Turn) (size : ℕ) (big : Bool) (p : ArmCore)
      → HasShape size big p
      → EndsSound size big (gdb_listener t target_big_endian fuel all p)
  unfolding gdb_listener
  from_core all size big p shape =
      closed size big (turns t target_big_endian fuel all [] (gdb_init_data p)) (
        turns_lem t target_big_endian fuel all size big [] (gdb_init_data p) (shape, inl refl, tt)
          (omega arith))

  -- A run of the simulator that ends without leaving an array has kept the 0x20000 words and the
  -- byte order of the memory it was started with, and has sent the debugger nothing but
  -- acknowledgements, requests for retransmission and packets with their sum, whatever comes on the
  -- two connections and in whatever order.
  pub simulate_lem :
      (content content' : ℕ → ℕ) (status cycles : ℕ) (all : List Turn)
      → EndsSound 0x20000 target_big_endian
          (simulate t target_big_endian fuel content content' status cycles all)
  unfolding simulate started memory_create
  simulate_lem content content' status cycles all =
      let memory = memory_create content 0x20000 target_big_endian in
      rw (arm_create_lem content' status cycles memory) (
        from_core all 0x20000 target_big_endian
          (record {
            cycle_count = 0;
            reg = record { regs = λ i. u32 (content' i); cpsr = 0 };
            mem = memory;
          })
          (refl, refl))
