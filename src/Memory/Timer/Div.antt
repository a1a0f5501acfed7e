-- ===== src/Memory/Timer/Div.antt =====
-- DIV in `TimerStep` of carbon-pc/src/gb/Memory.cpp.
use open_carbon.Base.{ℕ, zero, suc, ◌+◌, ◌*◌, ◌%◌, ◌^◌, ◌≤◌, ◌<◌, ◌≡◌, refl, arith, bit_or}
use open_carbon.State.{Timer}
use open_carbon.Memory.Timer.{timer_step, div_step, tima_periods, count_tima, run_tima}
use open_carbon.Memory.Timer.Count.{counted_once}

-- The loops leave DIV alone.
count_tima-div :
    (fuel : ℕ) (t : Timer)
    → let t' = (count_tima fuel t).0 in (t'.div ≡ t.div) × (t'.div_accum ≡ t.div_accum)
unfolding count_tima
count_tima-div zero t = (refl, refl)
count_tima-div (suc fuel) t = ground (arith, count_tima-div fuel (counted_once t))

run_tima-div :
    (fuel : ℕ) (t : Timer) (flags : ℕ)
    → let t' = (run_tima fuel t flags).0 in (t'.div ≡ t.div) × (t'.div_accum ≡ t.div_accum)
unfolding run_tima
run_tima-div zero t flags = (refl, refl)
run_tima-div (suc fuel) t flags =
    let t1 = (count_tima 256 t).0 in
    ground (
      arith,
      count_tima-div 256 t,
      run_tima-div fuel (record t1 { tima = t1.tma }) (bit_or flags 0xe4),
    )

-- DIV, a byte, and its accumulator, below 256, are one counter of 16 bits, as long as a step has at
-- most 256 ticks; the accumulator stays below 256.
pub timer_step-div :
    (t : Timer) (flags ticks : ℕ)
    → t.div < 2 ^ 8
    → t.div_accum < 0x100
    → ticks ≤ 0x100
    → let t' = (timer_step t flags ticks).0 in
      (t'.div * 0x100 + t'.div_accum ≡ (t.div * 0x100 + t.div_accum + ticks) % 2 ^ 16)
      × (t'.div_accum < 0x100)
unfolding timer_step div_step
timer_step-div t flags ticks byte below few =
    let t1 = div_step t ticks in
    let t2 = record t1 {
      tima_period = tima_periods (t1.tac % 4);
      tima_accum = t1.tima_accum + ticks;
    } in
    ground (arith, run_tima-div t2.tima_accum t2 flags)
