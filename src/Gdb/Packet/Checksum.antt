-- ===== src/Gdb/Packet/Checksum.antt =====
-- Which packets `gdb_packet_analysis` hands on.
use progs.Prelude.{
  ℕ, suc, ◌+◌, ◌-◌, ◌<◌, ◌≡◌, refl, ap, ap₂, ◌∙◌, Bool, arith, ◌==◌, if◌then◌else◌, List, [], ◌∷◌,
  ◌++◌,
}
use progs.Prelude.Lists.{++_assoc, length-++, drop, take, set, get_or, length}
use progs.Prelude.Word.{u32}
use progs.Util.{Target}
use progs.Gdb.{G, Gdb, ◌>>◌, scanned_or, checksum, framed, gdb_send_ack, gdb_require_retransmission}
use progs.Gdb.Scan.{hex2, scan_hex}
use progs.Gdb.Words.{scan_hex-checksum}
use progs.Gdb.Packet.{handler, handle, gdb_packet_analysis}

take-++ : (s q : List ℕ) → take (length s) (s ++ q) ≡ s
take-++ [] q = refl
take-++ (c ∷ s) q = ap (c ∷◌) (take-++ s q)

drop-++ : (s : List ℕ) (y : ℕ) (q : List ℕ) → drop (suc (length s)) (s ++ (y ∷ q)) ≡ q
drop-++ [] y q = refl
drop-++ (c ∷ s) y q = drop-++ s y q

set-++ : (s : List ℕ) (x y : ℕ) (q : List ℕ) → set (s ++ (x ∷ q)) (length s) y ≡ s ++ (y ∷ q)
set-++ [] x y q = refl
set-++ (c ∷ s) x y q = ap (c ∷◌) (set-++ s x y q)

pub checksum-lt : (s : List ℕ) → checksum s < 256
checksum-lt [] = omega arith
checksum-lt (c ∷ s) = omega arith

-- What follows the data in memory: the `#`, which the analysis overwrites, the digits and a NUL.
abbrev pub ended : (data' : List ℕ) (hash k : ℕ) → List ℕ
ended data' hash k = data' ++ (hash ∷ (hex2 k ++ (0 ∷ [])))

module _ (t : Target) (target_big_endian : Bool) (fuel : ℕ) where
  -- The command of a packet with this data, and the characters after the command.
  abbrev pub dispatched : (packet : List ℕ) → G (Unit {0})
  dispatched packet =
      gdb_send_ack
      >> handle t target_big_endian fuel (handler t target_big_endian fuel (get_or packet 1 0))
          (drop 2 packet)

  abbrev decided : (check given : ℕ) (packet : List ℕ) → G (Unit {0})
  decided check given packet =
      if check == given then dispatched packet else gdb_require_retransmission

  abbrev analysed : (unassigned i : ℕ) (packet : List ℕ) → G (Unit {0})
  analysed unassigned i packet =
      let s = drop (i + 1) packet in
      decided (checksum (take (i - 1) (drop 1 packet)))
        (scanned_or unassigned (scan_hex (length s) s)) (set packet i 0)

  as_analysed :
      (text : List ℕ) (g : Gdb)
      → gdb_packet_analysis t target_big_endian fuel text g
        ≡ analysed
            (u32 (t.unassigned g.arm.cycle_count))
            ((length text - 4) + 1)
            (text ++ (0 ∷ []))
            g
  unfolding gdb_packet_analysis
  as_analysed text g = refl

  in_place :
      (unassigned : ℕ) (d : List ℕ) (k : ℕ)
      → k < 256
      → analysed unassigned (suc (length d)) (36 ∷ ended d 35 k)
        ≡ decided (checksum d) k (36 ∷ ended d 0 k)
  in_place unassigned d k h =
      let digits = hex2 k ++ (0 ∷ []) in
      let before : suc (length d) - 1 ≡ length d = omega arith in
      let past : suc (length d) + 1 ≡ suc (suc (length d)) = omega arith in
      let data_part : take (suc (length d) - 1) (ended d 35 k) ≡ d =
        ap (λ (n : ℕ). take n (ended d 35 k)) before ∙ take-++ d (35 ∷ digits) in
      let digits_part : drop (suc (length d) + 1) (36 ∷ ended d 35 k) ≡ digits =
        ap (λ (n : ℕ). drop n (36 ∷ ended d 35 k)) past ∙ drop-++ d 35 digits in
      let given : scanned_or unassigned (
            scan_hex (length (drop (suc (length d) + 1) (36 ∷ ended d 35 k)))
              (drop (suc (length d) + 1) (36 ∷ ended d 35 k)))
          ≡ k =
        ap (λ (q : List ℕ). scanned_or unassigned (scan_hex (length q) q)) digits_part
        ∙ ap (scanned_or unassigned) (scan_hex-checksum k h) in
      let cut : set (36 ∷ ended d 35 k) (suc (length d)) 0 ≡ 36 ∷ ended d 0 k =
        ap (36 ∷◌) (set-++ d 35 0 digits) in
      ap
        (λ (c : ℕ).
          decided c
            (scanned_or unassigned (
              scan_hex (length (drop (suc (length d) + 1) (36 ∷ ended d 35 k)))
                (drop (suc (length d) + 1) (36 ∷ ended d 35 k))))
            (set (36 ∷ ended d 35 k) (suc (length d)) 0))
        (ap checksum data_part)
      ∙ ap₂ (decided (checksum d)) given cut

  -- A packet is `$`, data, `#` and two digits for a byte `k`. If `k` is the sum of the data modulo
  -- 256, it is acknowledged, and the command that its first character names runs on the rest, with
  -- the `#` replaced by a NUL; if it is not, retransmission is asked for and nothing else happens.
  pub gdb_packet_analysis_lem :
      (d : List ℕ) (k : ℕ) (g : Gdb)
      → k < 256
      → gdb_packet_analysis t target_big_endian fuel (36 ∷ (d ++ (35 ∷ hex2 k))) g
        ≡ (if checksum d == k then dispatched (36 ∷ ended d 0 k) else gdb_require_retransmission) g
  gdb_packet_analysis_lem d k g h =
      let unassigned = u32 (t.unassigned g.arm.cycle_count) in
      let last : (length (36 ∷ (d ++ (35 ∷ hex2 k))) - 4) + 1 ≡ suc (length d) =
        omega (arith, length-++ d (35 ∷ hex2 k)) in
      as_analysed (36 ∷ (d ++ (35 ∷ hex2 k))) g
      ∙ ap (λ (run : G (Unit {0})). run g)
          (ap₂ (analysed unassigned) last (ap (36 ∷◌) (++_assoc d (35 ∷ hex2 k) (0 ∷ [])))
            ∙ in_place unassigned d k h)

  -- The analysis accepts what `gdb_send_buffer` sends.
  pub gdb_packet_analysis-framed :
      (d : List ℕ) (g : Gdb)
      → gdb_packet_analysis t target_big_endian fuel (framed d) g
        ≡ dispatched (36 ∷ ended d 0 (checksum d)) g
  gdb_packet_analysis-framed d g =
      ground (arith, gdb_packet_analysis_lem d (checksum d) g (checksum-lt d))
