-- ===== src/Gdb/Block.antt =====
-- The command c of gdb_protocol.c on a straight run of data-processing instructions that ends at a
-- breakpoint.
use progs.Prelude.{
  ℕ, ◌<◌, ◌≡◌, refl, ap, ◌∙◌, Bool, true, false, arith, ◌==◌, some, List, [], ◌∷◌, ◌++◌, bit_and,
}
use progs.Prelude.Word.{test_bit}
use progs.Prelude.Bits.{test_bit-and}
use progs.Prelude.Lists.{length}
use progs.Util.{Target}
use progs.Core.{ok}
use progs.Machine.Block.{
  IsPlain, AllPlain, IsBlock, computed, run_block, step-computed, computed-IsBlock,
}
use progs.Gdb.{Gdb, replied, gdb_send_stop_reason, gdb_send_data}
use progs.Gdb.Text.{s05}
use progs.Gdb.Handlers.{cont}
use progs.Gdb.Commands.{answered, send_lem}
use progs.Gdb.Continue.{Sees, Sees-word, Until, stops, goes_on, is_breakpoint, cont_lem}

-- Bit 26 is set in a breakpoint.
IsPlain-is_breakpoint : (mot : ℕ) → IsPlain mot → is_breakpoint mot ≡ false
IsPlain-is_breakpoint mot plain =
    let kind = plain.1 in
    let clear : test_bit mot 26 ≡ 0 = omega arith in
    apart (bit_and mot 0xFFF000F0) (omega (arith, test_bit-and 26 mot 0xFFF000F0, clear))
  where
    apart : (x : ℕ) → test_bit x 26 ≡ 0 → x == 0xE7F000F0 ≡ false
    apart x h = ground arith

Sees-IsBlock :
    (t : Target) (mot : ℕ) (ws : List ℕ) (g : Gdb) → IsBlock g.arm (mot ∷ ws) → Sees t g mot
Sees-IsBlock t mot ws g (w, typed, aligned, small, fits, (here, _)) =
    Sees-word t g w typed.1 (omega arith) aligned (omega arith)
    ∙ ap (λ (word : ℕ). ok (some word) g.arm) here

-- The debugger's stub after the run: every step has returned 0.
abbrev pub after_block : Target → List ℕ → Gdb → Gdb
after_block t [] g = g
after_block t (mot ∷ ws) g =
    after_block t ws (record g { arm = computed t mot g.arm; target_exception = 0 })

Until-after_block :
    (t : Target) (ws : List ℕ) (mark : ℕ) (g : Gdb)
    → AllPlain ws
    → IsBlock g.arm (ws ++ (mark ∷ []))
    → is_breakpoint mark ≡ true
    → Until t (after_block t ws g) (length ws) g
Until-after_block t [] mark g all block here = stops mark (Sees-IsBlock t mark [] g block) here
Until-after_block t (mot ∷ ws) mark g (plain, all) block here =
    let rest = ws ++ (mark ∷ []) in
    goes_on mot 0 (computed t mot g.arm) (Sees-IsBlock t mot rest g block)
      (IsPlain-is_breakpoint mot plain) (step-computed t mot rest g.arm plain block)
      (Until-after_block t ws mark (record g { arm = computed t mot g.arm; target_exception = 0 })
        all (computed-IsBlock t mot rest g.arm plain block) here)

-- What it comes to, after one instruction or more.
abbrev pub ran : Target → List ℕ → Gdb → Gdb
ran t ws g = record g { arm = run_block t ws g.arm; target_exception = 0 }

after_block-ran :
    (t : Target) (mot : ℕ) (ws : List ℕ) (g : Gdb) → after_block t (mot ∷ ws) g ≡ ran t (mot ∷ ws) g
after_block-ran t mot [] g = refl
after_block-ran t mot (next ∷ ws) g =
    after_block-ran t next ws (record g { arm = computed t mot g.arm; target_exception = 0 })

-- The command c, at a straight run of one data-processing instruction or more that ends at a
-- breakpoint, all inside the block, with more fuel than there are instructions: the run ends, the
-- core is what the instructions' results make up, the breakpoint is not executed, and the answer is
-- S05.
pub cont-run_block :
    (t : Target) (target_big_endian : Bool) (mot : ℕ) (ws : List ℕ) (mark fuel : ℕ) (data' : List ℕ)
    (g : Gdb)
    → AllPlain (mot ∷ ws)
    → IsBlock g.arm ((mot ∷ ws) ++ (mark ∷ []))
    → is_breakpoint mark ≡ true
    → length (mot ∷ ws) < fuel
    → cont t target_big_endian fuel data' g ≡ replied tt (answered s05 (ran t (mot ∷ ws) g))
unfolding gdb_send_stop_reason gdb_send_data
cont-run_block t target_big_endian mot ws mark fuel data' g all block here enough =
    cont_lem t target_big_endian (after_block t (mot ∷ ws) g) g (length (mot ∷ ws)) fuel data'
      (Until-after_block t (mot ∷ ws) mark g all block here) enough
    ∙ ap gdb_send_stop_reason (after_block-ran t mot ws g)
    ∙ send_lem s05 (ran t (mot ∷ ws) g) (omega arith)
