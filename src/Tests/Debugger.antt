-- ===== src/Tests/Debugger.antt =====
-- Tests of gdb_protocol.c.
use progs.Prelude.{ℕ, ◌≡◌, refl, true, some, arith, inl, List, [], ◌∷◌}
use progs.Gdb.{Gdb, replied, framed, sent, read_uint32, hex_bytes}
use progs.Gdb.Text.{ok}
use progs.Gdb.Handlers.{write_memory_binary, read_memory}
use progs.Gdb.Packet.{gdb_init_data, gdb_packet_analysis}
use progs.Gdb.Packet.Checksum.{gdb_packet_analysis_lem, dispatched}
use progs.Gdb.{write_uint32}
use progs.Gdb.Handlers.{read_register}
use progs.Gdb.Commands.{read_register_lem, answered}
use progs.Gdb.Writing.{write_memory_binary_lem, with_memory, put_bytes}
use progs.Gdb.Reading.{read_memory_lem}
use progs.Tests.{host, block, block-IsBytes, core}

abbrev stub : Gdb
stub = gdb_init_data (core (block true 0x12 0x34 0x56 0x78))

-- S05
abbrev stopped : List ℕ
stopped = 83 ∷ 48 ∷ 53 ∷ []

frame_runs : framed stopped ≡ 36 ∷ 83 ∷ 48 ∷ 53 ∷ 35 ∷ 98 ∷ 56 ∷ []
frame_runs = refl

reading_runs :
    read_uint32 host true 0 (49 ∷ 50 ∷ 51 ∷ 52 ∷ 97 ∷ 98 ∷ 67 ∷ 68 ∷ []) ≡ some 0x1234ABCD
unfolding read_uint32
reading_runs = refl

-- $?#3f with the wrong sum
refused_runs :
    gdb_packet_analysis host true 0 (36 ∷ 63 ∷ 35 ∷ 51 ∷ 101 ∷ []) stub
    ≡ replied tt (record stub { events = sent (45 ∷ []) ∷ [] })
unfolding gdb_packet_analysis
refused_runs = refl

-- $p3#a3
gdb_packet_analysis_lem_example :
    gdb_packet_analysis host true 0 (36 ∷ 112 ∷ 51 ∷ 35 ∷ 97 ∷ 51 ∷ []) stub
    ≡ dispatched host true 0 (36 ∷ 112 ∷ 51 ∷ 0 ∷ 97 ∷ 51 ∷ 0 ∷ []) stub
gdb_packet_analysis_lem_example =
    gdb_packet_analysis_lem host true 0 (112 ∷ 51 ∷ []) 0xA3 stub (omega arith)

-- 0,4
read_memory_lem_example :
    read_memory host true (48 ∷ 44 ∷ 52 ∷ 0 ∷ []) stub
    ≡ replied tt (answered (hex_bytes (0x12 ∷ 0x34 ∷ 0x56 ∷ 0x78 ∷ [])) stub)
read_memory_lem_example =
    read_memory_lem host true stub (omega arith)
      (block-IsBytes true 0x12 0x34 0x56 0x78 (omega arith) (omega arith) (omega arith)
        (omega arith))
      (inl refl) (omega arith) (48 ∷ 44 ∷ 52 ∷ 0 ∷ []) 0 4 refl (omega arith)

-- 0,2: and the bytes 125, escaped, and 1
write_memory_binary_lem_example :
    write_memory_binary host true (48 ∷ 44 ∷ 50 ∷ 58 ∷ 125 ∷ 93 ∷ 1 ∷ 0 ∷ []) stub
    ≡ replied tt (answered ok (with_memory (put_bytes stub.arm.mem 0 (125 ∷ 1 ∷ [])) stub))
write_memory_binary_lem_example =
    write_memory_binary_lem host true (48 ∷ 44 ∷ 50 ∷ 58 ∷ 125 ∷ 93 ∷ 1 ∷ 0 ∷ []) (125 ∷ 1 ∷ [])
      (0 ∷ []) 0 stub refl refl (omega arith) (inl refl) (omega arith) (omega arith)
      (omega arith, (omega arith, tt))

-- Register 13 is asked for with the digit d, and register 0 is given.
read_register_lem_example :
    read_register host true (b'd' ∷ 0 ∷ []) stub
    ≡ replied tt (answered (write_uint32 host true 0) stub)
read_register_lem_example = read_register_lem host true 13 stub (omega arith) [] (omega arith)
