-- ===== src/Tests/Memory.antt =====
-- The memory map's and the timer's theorems at concrete machines.
use open_carbon.Base.{◌+◌, ◌/◌, ◌%◌, ◌≡◌, refl, arith}
use open_carbon.Memory.{write8}
use open_carbon.Memory.Frame.{Untouched, write8-Untouched}
use open_carbon.Memory.Timer.{timer_step, tima_periods}
use open_carbon.Memory.Timer.Count.{tick_many, timer_step-tick_many}
use open_carbon.State.{Machine, Timer}
use open_carbon.Memory.Transfer.{Transferred, write8-Transferred}
use open_carbon.Tests.Data.{adding}

-- A general transfer is started.
write8-Untouched_example : Untouched adding (write8 adding 0xff55 0x7f)
write8-Untouched_example = write8-Untouched adding 0xff55 0x7f

-- TIMA at 0xfe with a period of 16, and DIV about to wrap.
abbrev counting : Timer
counting = record (adding.timer) {
  div = 0xff;
  div_accum = 0xf8;
  tac = 5;
  tima = 0xfe;
  tma = 0x80;
  tima_accum = 12;
}

timer_step-tick_many_example :
    (((timer_step counting 0 40).0.tima, (timer_step counting 0 40).1)
      ≡ tick_many ((12 + 40) / tima_periods (5 % 4)) 0x80 (0xfe, 0))
    × ((timer_step counting 0 40).0.tima_accum ≡ (12 + 40) % tima_periods (5 % 4))
timer_step-tick_many_example = timer_step-tick_many counting 0 40 (omega arith) (omega arith) refl

-- Two blocks from the start of the work RAM to 0x8000.
abbrev copying : Machine
copying = record adding {
  host_stack = 8;
  video = record (adding.video) { hdma_src = 0xc000; hdma_dst = 0x8000; hdma_active = 0 };
}

write8-Transferred_example : Transferred copying 32 (write8 copying 0xff55 1)
write8-Transferred_example =
    write8-Transferred copying 1 (omega arith) refl (omega arith) (omega arith) (omega arith)
      (omega arith)
