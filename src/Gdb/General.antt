-- ===== src/Gdb/General.antt =====
-- The commands G and g of gdb_protocol.c on all the registers.
use progs.Prelude.{
  ℕ, zero, suc, ◌+◌, ◌*◌, ◌<◌, ◌≤◌, ◌≡◌, refl, sym, ap, ◌∙◌, arith, Bool, some, List, [], ◌∷◌, ◌++◌,
}
use progs.Prelude.Word.{word_size, u32, sub32}
use progs.Prelude.Lists.{length, length-++, drop, drop-++, ++_assoc}
use progs.Util.{Target}
use progs.Core.{ArmCore, arm_read_cpsr, arm_write_cpsr}
use progs.Core.RegisterFile.{put, reg_at, write_register-ok, read_register-ok}
use progs.Gdb.{
  G, Gdb, Reply, replied, and_then, ◌>>=◌, on_core, some_or_outside, write_uint32, read_uint32,
  gdb_send_data,
}
use progs.Gdb.Text
use progs.Gdb.Words.{read_uint32-write_uint32, length-write_uint32}
use progs.Gdb.Commands.{answered, with_core, send_lem}
use progs.Gdb.Handlers.{
  write_general_registers, write_registers_loop, skip_words, read_general_registers, registers_text,
  unknown_words,
}

abbrev pub AllWords : List ℕ → Type 0
AllWords [] = Unit {0}
AllWords (w ∷ ws) = (w < word_size) × AllWords ws

-- The registers from `i` on, set to these words.
abbrev pub put_all : (i : ℕ) → List ℕ → ArmCore → ArmCore
put_all i [] p = p
put_all i (w ∷ ws) p = put_all (i + 1) ws (put p i w)

length_four :
    (a b c d : List ℕ) → length (a ++ b ++ c ++ d) ≡ length a + (length b + (length c + length d))
length_four a b c d =
    let outer = length-++ (a ++ b ++ c) d in
    let middle = length-++ (a ++ b) c in
    let inner = length-++ a b in omega (arith, outer, middle, inner)

module _ (t : Target) (target_big_endian : Bool) where
  -- The digits of these words.
  abbrev pub words_text : List ℕ → List ℕ
  words_text [] = []
  words_text (w ∷ ws) = write_uint32 t target_big_endian w ++ words_text ws

  reading :
      (junk w : ℕ) (s rest : List ℕ)
      → w < word_size
      → read_uint32 t target_big_endian junk ((write_uint32 t target_big_endian w ++ s) ++ rest)
        ≡ some w
  reading junk w s rest h =
      ap (read_uint32 t target_big_endian junk)
        (++_assoc (write_uint32 t target_big_endian w) s rest)
      ∙ read_uint32-write_uint32 t target_big_endian junk w (s ++ rest) h

  dropping :
      (w : ℕ) (s rest : List ℕ)
      → drop 8 ((write_uint32 t target_big_endian w ++ s) ++ rest) ≡ s ++ rest
  dropping w s rest =
      ap (drop 8) (++_assoc (write_uint32 t target_big_endian w) s rest)
      ∙ ap (λ (n : ℕ). drop n (write_uint32 t target_big_endian w ++ (s ++ rest)))
          (sym (length-write_uint32 t target_big_endian w))
      ∙ drop-++ (write_uint32 t target_big_endian w) (s ++ rest)

  write_registers_loop_lem :
      (ws : List ℕ) (i : ℕ) (rest : List ℕ) (g : Gdb)
      → AllWords ws
      → length ws + i ≤ 16
      → write_registers_loop t target_big_endian (length ws) i (words_text ws ++ rest) g
        ≡ replied rest (with_core (put_all i ws g.arm) g)
  write_registers_loop_lem [] i rest g h fits = refl
  write_registers_loop_lem (w ∷ ws) i rest g (h, hs) fits =
      let junk = u32 (t.unassigned g.arm.cycle_count) in
      let next =
        write_registers_loop_lem ws (i + 1) rest (with_core (put g.arm i w) g) hs (omega arith) in
      rw
        (
          reading junk w (words_text ws) rest h,
          dropping w (words_text ws) rest,
          write_register-ok g.arm i (omega arith) w,
        )
        next

  skip_words_lem :
      (ws rest : List ℕ) (g : Gdb)
      → AllWords ws
      → skip_words t target_big_endian (length ws) (words_text ws ++ rest) g ≡ replied rest g
  skip_words_lem [] rest g h = refl
  skip_words_lem (w ∷ ws) rest g (h, hs) =
      let junk = u32 (t.unassigned g.arm.cycle_count) in
      rw (reading junk w (words_text ws) rest h, dropping w (words_text ws) rest)
        (skip_words_lem ws rest g hs)

  -- `write_general_registers` behind the registers, and behind the words that it skips.
  abbrev status_part : List ℕ → G (Unit {0})
  status_part position g =
      (some_or_outside
            (read_uint32 t target_big_endian (u32 (t.unassigned g.arm.cycle_count)) position)
          >>= λ value. on_core (arm_write_cpsr value) >>= λ _. gdb_send_data Text.ok)
        g

  abbrev skipping_part : List ℕ → G (Unit {0})
  skipping_part position = skip_words t target_big_endian 25 position >>= status_part

  as_parts :
      (data' : List ℕ) (g : Gdb)
      → write_general_registers t target_big_endian data' g
        ≡ and_then (write_registers_loop t target_big_endian 16 0 data' g) skipping_part
  unfolding write_general_registers
  as_parts data' g = refl

  status_lem :
      (c : ℕ) (rest : List ℕ) (g : Gdb)
      → c < word_size
      → status_part (write_uint32 t target_big_endian c ++ rest) g
        ≡ replied tt (answered Text.ok (with_core (put g.arm 15 c) g))
  unfolding arm_write_cpsr gdb_send_data
  status_lem c rest g h =
      rw
        (read_uint32-write_uint32 t target_big_endian (u32 (t.unassigned g.arm.cycle_count)) c rest
          h)
        (send_lem Text.ok (with_core (put g.arm 15 c) g) (omega arith))

  -- `G` with sixteen words for the registers, 25 that are not used and one for the status stores the
  -- words in order. The last of the sixteen and the status are one register, so the status stays.
  pub write_general_registers_lem :
      (ws unused : List ℕ) (c : ℕ) (rest : List ℕ) (g : Gdb)
      → length ws ≡ 16
      → length unused ≡ 25
      → AllWords ws
      → AllWords unused
      → c < word_size
      → write_general_registers t target_big_endian
          (words_text ws ++ (words_text unused ++ (write_uint32 t target_big_endian c ++ rest)))
          g
        ≡ replied tt (answered Text.ok (with_core (put (put_all 0 ws g.arm) 15 c) g))
  write_general_registers_lem ws unused c rest g sixteen many hs ks h =
      let after_unused = write_uint32 t target_big_endian c ++ rest in
      let after_words = words_text unused ++ after_unused in
      let g' = with_core (put_all 0 ws g.arm) g in
      as_parts (words_text ws ++ after_words) g
      ∙ ap (λ (r : Reply (List ℕ)). and_then r skipping_part)
          (ap
              (λ (n : ℕ).
                write_registers_loop t target_big_endian n 0 (words_text ws ++ after_words) g)
              (sym sixteen)
            ∙ write_registers_loop_lem ws 0 after_words g hs (omega (arith, sixteen)))
      ∙ ap (λ (r : Reply (List ℕ)). and_then r status_part)
          (ap (λ (n : ℕ). skip_words t target_big_endian n after_words g') (sym many)
            ∙ skip_words_lem unused after_unused g' ks)
      ∙ status_lem c rest g' h

  -- The digits of `n` registers from `i` on.
  abbrev pub registers_of : (n i : ℕ) → ArmCore → List ℕ
  registers_of zero i p = []
  registers_of (suc n) i p =
      write_uint32 t target_big_endian (reg_at p i) ++ registers_of n (i + 1) p

  registers_text_lem :
      (n i : ℕ) (g : Gdb)
      → n + i ≤ 16
      → registers_text t target_big_endian n i g ≡ replied (registers_of n i g.arm) g
  registers_text_lem zero i g fits = refl
  registers_text_lem (suc n) i g fits =
      rw (read_register-ok g.arm i (omega arith), registers_text_lem n (i + 1) g (omega arith)) refl

  length-registers_of : (n i : ℕ) (p : ArmCore) → length (registers_of n i p) ≡ 8 * n
  length-registers_of zero i p = refl
  length-registers_of (suc n) i p =
      let word = length-write_uint32 t target_big_endian (reg_at p i) in
      let sum =
        length-++ (write_uint32 t target_big_endian (reg_at p i)) (registers_of n (i + 1) p) in
      let rest = length-registers_of n (i + 1) p in omega (arith, word, sum, rest)

  -- What `g` answers: the registers, the program counter, and the status.
  abbrev pub general_text : ArmCore → List ℕ
  general_text p =
      registers_of 15 0 p
      ++ write_uint32 t target_big_endian (sub32 (reg_at p 15) 4)
      ++ unknown_words t target_big_endian 25
      ++ write_uint32 t target_big_endian p.reg.cpsr

  general_text-short : (p : ArmCore) → length (general_text p) ≤ 1019
  general_text-short p =
      let pc = write_uint32 t target_big_endian (sub32 (reg_at p 15) 4) in
      let status = write_uint32 t target_big_endian p.reg.cpsr in
      let words = unknown_words t target_big_endian 25 in
      let sum = length_four (registers_of 15 0 p) pc words status in
      let first = length-registers_of 15 0 p in
      let second = length-write_uint32 t target_big_endian (sub32 (reg_at p 15) 4) in
      let third : length words ≡ 200 = refl in
      let fourth = length-write_uint32 t target_big_endian p.reg.cpsr in
      omega (arith, sum, first, second, third, fourth)

  -- `g` answers with the fifteen registers, the program counter less 4, 25 words of x and the status,
  -- and changes nothing.
  pub read_general_registers_lem :
      (data' : List ℕ) (g : Gdb)
      → read_general_registers t target_big_endian data' g
        ≡ replied tt (answered (general_text g.arm) g)
  unfolding read_general_registers arm_read_cpsr
  read_general_registers_lem data' g =
      rw (registers_text_lem 15 0 g (omega arith), read_register-ok g.arm 15 (omega arith))
        (send_lem (general_text g.arm) g (general_text-short g.arm))
