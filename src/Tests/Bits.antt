-- ===== src/Tests/Bits.antt =====
-- Tests of util.c, util.h and the flag arithmetic.
use progs.Prelude.{◌+◌, ◌≡◌, refl, not, arith, of_bool, ◌&&◌}
use progs.Prelude.Word.{u32, sub32}
use progs.Util.{asr, ror, shl, shr}
use progs.DataProcessing.{overflow_from}
use progs.DataProcessing.Carry.{overflow_from_lem, difference_fits, sum_fits, same_sign}
use progs.Tests.{host}

asr_runs : asr host 0x80000000 4 ≡ 0xF8000000
unfolding asr shl shr
asr_runs = refl

ror_runs : ror host 0x12345678 8 ≡ 0x78123456
unfolding ror shl shr
ror_runs = refl

overflow_from_lem_example :
    (overflow_from 0x80000000 1 (sub32 0x80000000 1) 0
      ≡ of_bool (not (difference_fits 0x80000000 1)))
    × (overflow_from 0x80000000 1 (u32 (0x80000000 + 1)) 1
        ≡ of_bool (same_sign 0x80000000 1 && sum_fits 0x80000000 1))
overflow_from_lem_example = overflow_from_lem 0x80000000 1 (omega arith) (omega arith)
