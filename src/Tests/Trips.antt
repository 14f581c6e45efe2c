-- ===== src/Tests/Trips.antt =====
-- Tests of the commands G and g of gdb_protocol.c, and of send_irq.c with the simulator.
use progs.Prelude.{ℕ, zero, suc, ◌≡◌, refl, true, arith, ◌<◌, some, List, [], ◌∷◌, ◌++◌}
use progs.Prelude.Word.{word_size, u16}
use progs.Gdb.{Gdb, replied, write_uint32}
use progs.Gdb.Scan.{atoi}
use progs.Gdb.Commands.{answered, with_core}
use progs.Gdb.Handlers.{write_general_registers, read_general_registers}
use progs.Gdb.General.{AllWords, words_text}
use progs.Gdb.RegisterTrip.{got_back, read-write_general_registers}
use progs.Gdb.Packet.{gdb_init_data}
use progs.Exception.Reset.{restarted}
use progs.Simulator.{interrupt, turn}
use progs.SendIrq.{sends, main}
use progs.SendIrq.Delivery.{main-turn}
use progs.Constants.{Name, arm_get_exception_name}
use progs.Tests.{host, block, core}

abbrev stub : Gdb
stub = gdb_init_data (core (block true 0x12 0x34 0x56 0x78))

-- `n` times the same word, and then others.
abbrev filled : (n w : ℕ) → List ℕ → List ℕ
filled zero w ws = ws
filled (suc n) w ws = w ∷ filled n w ws

filled-AllWords : (n w : ℕ) (ws : List ℕ) → w < word_size → AllWords ws → AllWords (filled n w ws)
filled-AllWords zero w ws h k = k
filled-AllWords (suc n) w ws h k = (h, filled-AllWords n w ws h k)

read-write_general_registers_example :
    (g' : Gdb) × (write_general_registers host true
        (words_text host true (filled 15 0x1234 [] ++ (0x8000 ∷ []))
          ++ (words_text host true (filled 25 0 []) ++ (write_uint32 host true 0x10 ++ [])))
        stub
      ≡ replied tt g')
    × (read_general_registers host true [] g'
        ≡ replied tt (answered (got_back host true (filled 15 0x1234 []) 0x10) g'))
read-write_general_registers_example =
    read-write_general_registers host true (filled 15 0x1234 []) (filled 25 0 []) 0x8000 0x10 [] []
      stub refl refl (filled-AllWords 15 0x1234 (0x8000 ∷ []) (omega arith) (omega arith, tt))
      (filled-AllWords 25 0 [] (omega arith) tt) (omega arith)

-- reset
abbrev reset_name : Name
reset_name = 114 ∷ 101 ∷ 115 ∷ 101 ∷ 116 ∷ []

reset_named : arm_get_exception_name 1 ≡ some reset_name
unfolding arm_get_exception_name
reset_named = refl

main-turn_example :
    (main ((104 ∷ []) ∷ (56 ∷ []) ∷ reset_name ∷ []) ≡ sends (u16 (atoi (56 ∷ []))) 1)
    × (turn host true 0 (interrupt 1) [] stub ≡ replied [] (with_core (restarted stub.arm) stub))
main-turn_example =
    main-turn host true 0 (104 ∷ []) (56 ∷ []) reset_name [] 1 [] stub (omega arith) reset_named
