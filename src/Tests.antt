-- ===== src/Tests.antt =====
-- Inputs for the tests: an x86-like little-endian host, small memories and cores.
mod Bits
mod Accesses
mod Registers
mod Transfers
mod Steps
mod Stops
mod Stepping
mod Looping
mod Threads
mod Reports
mod Debugger
mod Scanning
mod Programs
mod Tracing
mod Trips
mod Sessions
use progs.Prelude.{ℕ, ◌+◌, ◌*◌, ◌/◌, ◌%◌, ◌^◌, ◌<◌, Bool, true, false, arith, ◌==◌, if◌then◌else◌}
use progs.Util.{Target}
use progs.Memory.{Memory}
use progs.Memory.Layout.{IsBytes}
use progs.Core.{ArmCore}

-- Shift counts are taken modulo 32.
abbrev host : Target
host = record {
  host_big_endian = false;
  wide_shl = λ x n. x * 2 ^ (n % 32);
  wide_shr = λ x n. x / 2 ^ (n % 32);
  unassigned = λ cycle. 0;
}

-- Eight words, with the bytes `a b c d` at address 0 and zero elsewhere.
abbrev block : Bool → (a b c d : ℕ) → Memory
block big a b c d = record {
  size = 8;
  memo = λ i.
      if i == 0 then a else if i == 1 then b else if i == 2 then c else if i == 3 then d else 0;
  is_big_endian = big;
}

block-IsBytes :
    (big : Bool) (a b c d : ℕ) → a < 256 → b < 256 → c < 256 → d < 256 → IsBytes (block big a b c d)
block-IsBytes big a b c d ha hb hc hd i = ground arith

-- Register `i` holds `4 * i`, and the program counter 0.
abbrev core : Memory → ArmCore
core m = record { cycle_count = 0; reg = record { regs = λ i. 4 * (i % 16); cpsr = 0 }; mem = m }
