-- ===== src/Gdb/RegisterTrip.antt =====
-- The command g after the command G of gdb_protocol.c: which registers the debugger gets back.
use progs.Prelude.{ℕ, ◌+◌, ◌<◌, ◌≤◌, ◌≡◌, refl, sym, ap, ap₂, ◌∙◌, arith, Bool, List, [], ◌∷◌, ◌++◌}
use progs.Prelude.Word.{word_size, sub32}
use progs.Prelude.Lists.{length, length-++}
use progs.Util.{Target}
use progs.Core.{ArmCore, as_pc}
use progs.Core.RegisterFile.{put, reg_at}
use progs.Gdb.{Gdb, replied, write_uint32}
use progs.Gdb.Text
use progs.Gdb.Commands.{answered, with_core}
use progs.Gdb.Handlers.{write_general_registers, read_general_registers, unknown_words}
use progs.Gdb.General.{
  AllWords, put_all, words_text, registers_of, write_general_registers_lem,
  read_general_registers_lem,
}

put-other : (p : ArmCore) (i j w : ℕ) → j < i → (put p i w).reg.regs j ≡ p.reg.regs j
put-other p i j w h = ground arith

put-same : (p : ArmCore) (i w : ℕ) → i < 15 → (put p i w).reg.regs i ≡ w
put-same p i w h = ground arith

-- The registers below `i` stay.
put_all-below :
    (ws : List ℕ) (i j : ℕ) (p : ArmCore) → j < i → (put_all i ws p).reg.regs j ≡ p.reg.regs j
put_all-below [] i j p h = refl
put_all-below (w ∷ ws) i j p h =
    put_all-below ws (i + 1) j (put p i w) (omega arith) ∙ put-other p i j w h

module _ (t : Target) (target_big_endian : Bool) where
  reg_at-low : (p : ArmCore) (i : ℕ) → i < 15 → reg_at p i ≡ p.reg.regs i
  reg_at-low p i h = ground arith

  registers_of-put_all :
      (vs rest : List ℕ) (i c : ℕ) (p : ArmCore)
      → length vs + i ≤ 15
      → registers_of t target_big_endian (length vs) i (put (put_all i (vs ++ rest) p) 15 c)
        ≡ words_text t target_big_endian vs
  registers_of-put_all [] rest i c p fits = refl
  registers_of-put_all (v ∷ vs) rest i c p fits =
      let q = put (put_all (i + 1) (vs ++ rest) (put p i v)) 15 c in
      let here : reg_at q i ≡ v =
        reg_at-low q i (omega arith)
        ∙ put_all-below (vs ++ rest) (i + 1) i (put p i v) (omega arith)
        ∙ put-same p i v (omega arith) in
      ap₂ (λ (w : ℕ) (s : List ℕ). write_uint32 t target_big_endian w ++ s) here
        (registers_of-put_all vs rest (i + 1) c (put p i v) (omega arith))

  -- The answer to `g`.
  abbrev pub got_back : (vs : List ℕ) (c : ℕ) → List ℕ
  got_back vs c =
      words_text t target_big_endian vs
      ++ write_uint32 t target_big_endian (sub32 (as_pc c) 4)
      ++ unknown_words t target_big_endian 25
      ++ write_uint32 t target_big_endian c

  -- After `G` with fifteen registers, a program counter, 25 words that are not used and a status, `g`
  -- answers with the fifteen registers and the status as they were given. In the place of the program
  -- counter it answers with the status word again, with bit 1 of its sum with 4 cleared and less 4.
  pub read-write_general_registers :
      (vs unused : List ℕ) (pc c : ℕ) (rest data' : List ℕ) (g : Gdb)
      → length vs ≡ 15
      → length unused ≡ 25
      → AllWords (vs ++ (pc ∷ []))
      → AllWords unused
      → c < word_size
      → (g' : Gdb) × (write_general_registers t target_big_endian
            (words_text t target_big_endian (vs ++ (pc ∷ []))
              ++ (words_text t target_big_endian unused
                  ++ (write_uint32 t target_big_endian c ++ rest)))
            g
          ≡ replied tt g')
        × (read_general_registers t target_big_endian data' g'
            ≡ replied tt (answered (got_back vs c) g'))
  read-write_general_registers vs unused pc c rest data' g fifteen many hs ks h =
      let ws = vs ++ (pc ∷ []) in
      let all : length ws ≡ 16 = omega (arith, length-++ vs (pc ∷ []), fifteen) in
      let p = put (put_all 0 ws g.arm) 15 c in
      let g' = answered Text.ok (with_core p g) in
      let registers : registers_of t target_big_endian 15 0 p ≡ words_text t target_big_endian vs =
        ap (λ (n : ℕ). registers_of t target_big_endian n 0 p) (sym fifteen)
        ∙ registers_of-put_all vs (pc ∷ []) 0 c g.arm (omega (arith, fifteen)) in
      (
        g',
        write_general_registers_lem t target_big_endian ws unused c rest g all many hs ks h,
        read_general_registers_lem t target_big_endian data' g'
            ∙ ap
                (λ (s : List ℕ). replied tt (
                  answered
                    (s
                      ++ write_uint32 t target_big_endian (sub32 (as_pc c) 4)
                      ++ unknown_words t target_big_endian 25
                      ++ write_uint32 t target_big_endian c)
                    g'))
                registers,
      )
