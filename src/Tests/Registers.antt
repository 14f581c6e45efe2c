-- ===== src/Tests/Registers.antt =====
-- Tests of registers.c, of the core's accesses and of the flag updates.
use progs.Prelude.{◌≡◌, true, arith}
use progs.Core.{ArmCore, ok}
use progs.DataProcessing.{update_flags}
use progs.DataProcessing.Flags.{update_flags_lem}
use progs.Tests.{block, core}

abbrev p0 : ArmCore
p0 = core (block true 0xE1 0xA0 0x00 0x01)

update_flags_lem_example : update_flags 1 1 0 1 p0 ≡ ok tt p0
update_flags_lem_example = update_flags_lem p0 1 1 0 1 (omega arith) (omega arith)
