-- ===== src/Gdb/Keeps.antt =====
-- Every command of gdb_protocol.c keeps what Gdb/Frame says.
use progs.Prelude.{ℕ, zero, suc, ◌+◌, ◌∙◌, true, false, Bool, Option, none, some, List, [], ◌∷◌}
use progs.Prelude.Word.{u32}
use progs.Util.{Target}
use progs.Core.Frame.{access_rules}
use progs.Memory
use progs.Memory.{Memory, Access, memory_write_byte}
use progs.Memory.Frame.{EndsAccess, memory_write_byte-EndsAccess}
use progs.Instruction.{arm_step}
use progs.Instruction.Frame.{arm_step-Ends}
use progs.Gdb.{G, Gdb, ◌>>=◌, gets, on_core}
use progs.Gdb.Handlers.{
  cont, cont_loop, query, read_general_registers, registers_text, read_memory, memory_text,
  read_register, set_thread, step, write_general_registers, write_registers_loop, skip_words,
  write_memory_binary, binary_loop, put_arm_memory, of_access, write_register, then_text,
}
use progs.Gdb.Frame.{
  Keeps, EndsSound, IsSound, sound_rules, counted-Keeps, if-Keeps, pure-Keeps, bind-Keeps,
  some_or_outside-Keeps, gdb_send_data-Keeps, gdb_send_stop_reason-Keeps, of_access-Keeps,
  outside-Keeps,
}

ruleset send_rules =
    (sound_rules, access_rules, gdb_send_data-Keeps, gdb_send_stop_reason-Keeps, of_access-Keeps)

pub query-Keeps : (data' : List ℕ) → Keeps (query data')
unfolding query
query-Keeps data' = search send_rules depth 20

pub set_thread-Keeps : (data' : List ℕ) → Keeps (set_thread data')
set_thread-Keeps [] = outside-Keeps
set_thread-Keeps (type ∷ rest) = search send_rules depth 20

module _ (t : Target) (target_big_endian : Bool) where
  arm_step-Keeps : Keeps (on_core (arm_step t))
  arm_step-Keeps = counted-Keeps (arm_step t) (λ p. u32 (p.cycle_count + 1)) (arm_step-Ends t)

  cont_loop-Keeps :
      (fuel : ℕ) (instruction : ℕ) → Keeps (cont_loop t target_big_endian fuel instruction)
  unfolding cont_loop
  cont_loop-Keeps zero instruction = search send_rules depth 20
  cont_loop-Keeps (suc fuel) instruction =
      search (send_rules, arm_step-Keeps, cont_loop-Keeps fuel) depth 20

  pub cont-Keeps : (fuel : ℕ) (data' : List ℕ) → Keeps (cont t target_big_endian fuel data')
  unfolding cont
  cont-Keeps fuel data' = search (send_rules, cont_loop-Keeps fuel) depth 20

  pub step-Keeps : (data' : List ℕ) → Keeps (step t target_big_endian data')
  unfolding step
  step-Keeps data' = search (send_rules, arm_step-Keeps) depth 20

  registers_text-Keeps : (n i : ℕ) → Keeps (registers_text t target_big_endian n i)
  registers_text-Keeps zero i = pure-Keeps []
  registers_text-Keeps (suc n) i = search (send_rules, registers_text-Keeps n) depth 20

  pub read_general_registers-Keeps :
      (data' : List ℕ) → Keeps (read_general_registers t target_big_endian data')
  unfolding read_general_registers
  read_general_registers-Keeps data' = search (send_rules, registers_text-Keeps) depth 20

  then_text-Keeps :
      (value : Option ℕ) (rest : G (List ℕ))
      → Keeps rest
      → Keeps (then_text t target_big_endian value rest)
  then_text-Keeps none rest h = pure-Keeps []
  then_text-Keeps (some v) rest h = search (send_rules, h) depth 20

  memory_text-Keeps : (size address : ℕ) → Keeps (memory_text t target_big_endian size address)
  unfolding memory_text
  memory_text-Keeps zero address = pure-Keeps []
  memory_text-Keeps (suc size) address =
      search (send_rules, then_text-Keeps, memory_text-Keeps size) depth 20

  pub read_memory-Keeps : (data' : List ℕ) → Keeps (read_memory t target_big_endian data')
  unfolding read_memory
  read_memory-Keeps data' = search (send_rules, memory_text-Keeps) depth 20

  pub read_register-Keeps : (data' : List ℕ) → Keeps (read_register t target_big_endian data')
  unfolding read_register
  read_register-Keeps data' = search send_rules depth 20

  write_registers_loop-Keeps :
      (n i : ℕ) (position : List ℕ) → Keeps (write_registers_loop t target_big_endian n i position)
  write_registers_loop-Keeps zero i position = pure-Keeps position
  write_registers_loop-Keeps (suc n) i position =
      search (send_rules, write_registers_loop-Keeps n) depth 20

  skip_words-Keeps : (n : ℕ) (position : List ℕ) → Keeps (skip_words t target_big_endian n position)
  skip_words-Keeps zero position = pure-Keeps position
  skip_words-Keeps (suc n) position = search (send_rules, skip_words-Keeps n) depth 20

  pub write_general_registers-Keeps :
      (data' : List ℕ) → Keeps (write_general_registers t target_big_endian data')
  unfolding write_general_registers
  write_general_registers-Keeps data' =
      search (send_rules, write_registers_loop-Keeps, skip_words-Keeps) depth 20

  pub write_register-Keeps : (data' : List ℕ) → Keeps (write_register t target_big_endian data')
  unfolding write_register
  write_register-Keeps data' = search send_rules depth 20

  stored_at :
      {A : Type 0} (size : ℕ) (big : Bool) (g : Gdb) (a : Access Memory) (k : Bool → G A)
      → EndsAccess g.arm.mem a
      → IsSound size big g
      → ((b : Bool) → Keeps (k b))
      → EndsSound size big ((of_access a >>= λ written. put_arm_memory written >>= k) g)
  stored_at size big g (Memory.done m) k (s, e) ((s', e'), is, all) next =
      (next true).at size big (record g { arm = record (g.arm) { mem = m } })
        ((s ∙ s', e ∙ e'), is, all)
  stored_at size big g Memory.refused k h sound next = (next false).at size big g sound
  stored_at size big g Memory.fault k h sound next = tt

  -- The write of one byte by `binary_loop`, and what it goes on with.
  stored-Keeps :
      {A : Type 0} (address value : ℕ) (k : Bool → G A)
      → ((b : Bool) → Keeps (k b))
      → Keeps (
          gets (λ g. g.arm.mem) >>= λ m.
          of_access (memory_write_byte t m address value) >>= λ written.
          put_arm_memory written >>= k)
  stored-Keeps address value k next = record {
    at = λ size big g sound.
        stored_at size big g (memory_write_byte t g.arm.mem address value) k
          (memory_write_byte-EndsAccess t g.arm.mem address value) sound next;
  }

  binary_loop-Keeps :
      (n address : ℕ) (content : List ℕ) → Keeps (binary_loop t target_big_endian n address content)
  unfolding binary_loop
  binary_loop-Keeps zero address content = pure-Keeps true
  binary_loop-Keeps (suc n) address content =
      bind-Keeps _ _ (some_or_outside-Keeps _) (λ (value, content').
        stored-Keeps address value _
          (λ b. if-Keeps b _ _ (binary_loop-Keeps n _ content') (pure-Keeps false)))

  pub write_memory_binary-Keeps :
      (data' : List ℕ) → Keeps (write_memory_binary t target_big_endian data')
  unfolding write_memory_binary
  write_memory_binary-Keeps data' = search (send_rules, binary_loop-Keeps) depth 20
