-- ===== src/Gdb/Continue.antt =====
-- The command c of gdb_protocol.c: how much fuel is enough.
use progs.Prelude.{
  ℕ, zero, suc, ◌<◌, ◌≡◌, refl, ◌∙◌, arith, Bool, true, false, ◌==◌, some, List, bit_and,
}
use progs.Prelude.Word.{u32, sub32}
use progs.Prelude.{◌%◌}
use progs.Prelude.Word.{word_size}
use progs.Memory.Outcome.{IsAllocated, Fits}
use progs.Memory.Layout.{IsBytes, word_at, read_word-done}
use progs.Core.Fetch.{fetch_address, aligned_address}
use progs.Util.{Target}
use progs.Core.{ArmCore, as_pc, arm_read_register, arm_read_word}
use progs.Core
use progs.Core.RegisterFile.{read_register-ok}
use progs.Instruction.{arm_step}
use progs.Gdb.{Gdb, replied, gdb_send_stop_reason}
use progs.Gdb.Handlers.{cont, cont_loop}

-- `word` stands at the program counter.
abbrev pub Sees : Target → Gdb → ℕ → Type 0
Sees t g word = arm_read_word t (sub32 (as_pc g.arm.reg.cpsr) 4) g.arm ≡ Core.ok (some word) g.arm

pub Sees-word :
    (t : Target) (g : Gdb)
    → IsAllocated g.arm.mem
    → IsBytes g.arm.mem
    → g.arm.reg.cpsr < word_size
    → g.arm.reg.cpsr % 4 ≡ 0
    → Fits g.arm.mem g.arm.reg.cpsr 4
    → Sees t g (word_at g.arm.mem g.arm.reg.cpsr)
unfolding arm_read_word
Sees-word t g w bytes small aligned fits =
    let p = g.arm in
    let address : fetch_address p ≡ p.reg.cpsr = aligned_address p small aligned in
    rw (address, read_word-done t p.mem p.reg.cpsr w small bytes aligned fits) refl

abbrev pub is_breakpoint : ℕ → Bool
is_breakpoint word = bit_and word 0xFFF000F0 == 0xE7F000F0

-- From `g`, `n` steps at words that are no breakpoint lead to `g'`, where a breakpoint stands.
pub data Until (t : Target) (g' : Gdb) : ℕ → Gdb → Type 0 where
  stops : (word : ℕ) → Sees t g' word → is_breakpoint word ≡ true → Until t g' 0 g'
  goes_on :
      {n : ℕ} {g : Gdb}
      → (word result : ℕ) (q : ArmCore) → Sees t g word
      → is_breakpoint word ≡ false
      → arm_step t g.arm ≡ Core.ok result q
      → Until t g' n (record g { arm = q; target_exception = result })
      → Until t g' (suc n) g

module _ (t : Target) (target_big_endian : Bool) where
  at_breakpoint :
      (fuel instruction word : ℕ) (g : Gdb)
      → Sees t g word
      → is_breakpoint word ≡ true
      → cont_loop t target_big_endian (suc fuel) instruction g ≡ replied tt g
  unfolding cont_loop
  at_breakpoint fuel instruction word g sees here =
      rw (read_register-ok g.arm 15 (omega arith), sees, here) refl

  before_it :
      (fuel instruction word result : ℕ) (q : ArmCore) (g : Gdb)
      → Sees t g word
      → is_breakpoint word ≡ false
      → arm_step t g.arm ≡ Core.ok result q
      → cont_loop t target_big_endian (suc fuel) instruction g
        ≡ cont_loop t target_big_endian fuel word (record g { arm = q; target_exception = result })
  unfolding cont_loop
  before_it fuel instruction word result q g sees not_here step =
      rw (read_register-ok g.arm 15 (omega arith), sees, not_here, step) refl

  cont_loop-ends :
      (g' g : Gdb) (n fuel instruction : ℕ)
      → Until t g' n g
      → n < fuel
      → cont_loop t target_big_endian fuel instruction g ≡ replied tt g'
  cont_loop-ends g' g n zero instruction run enough = absurd (omega arith)
  cont_loop-ends g' _ _ (suc fuel) instruction (stops word sees here) enough =
      at_breakpoint fuel instruction word g' sees here
  cont_loop-ends g' g _ (suc fuel) instruction (goes_on {n} word result q sees not_here step run)
        enough =
      before_it fuel instruction word result q g sees not_here step
      ∙ cont_loop-ends g' (record g { arm = q; target_exception = result }) n fuel word run
          (omega arith)

  -- If `n` steps lead to a breakpoint and meet none before it, the command c with more fuel than
  -- `n` takes exactly these steps, leaves the breakpoint unexecuted and reports the last result.
  pub cont_lem :
      (g' g : Gdb) (n fuel : ℕ) (data' : List ℕ)
      → Until t g' n g
      → n < fuel
      → cont t target_big_endian fuel data' g ≡ gdb_send_stop_reason g'
  unfolding cont
  cont_lem g' g n fuel data' run enough =
      rw (cont_loop-ends g' g n fuel (u32 (t.unassigned g.arm.cycle_count)) run enough) refl
