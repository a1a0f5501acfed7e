-- ===== src/Memory/Timer.antt =====
-- The timer of carbon-pc/src/gb/Memory.cpp: `TimerRead`, `TimerWrite` and `TimerStep`.
pub mod Count
pub mod Div
use open_carbon.Base.{
  ℕ, zero, suc, ◌+◌, ◌-◌, ◌%◌, Bool, true, false, ltb, leb, ◌==◌, if◌then◌else◌, bit_or, u8, bit,
}
use open_carbon.State.{Timer}

unfoldable pub timer_read : Timer → ℕ → ℕ
timer_read t addr =
    if addr == 0xff04
    then t.div
    else if addr == 0xff05
    then t.tima
    else if addr == 0xff06
    then t.tma
    else if addr == 0xff07
    then t.tac
    else 0

unfoldable pub timer_write : Timer → ℕ → ℕ → Timer
timer_write t addr value =
    if addr == 0xff04
    then record t { div = 0 }
    else if addr == 0xff05
    then record t { tima = value }
    else if addr == 0xff06
    then record t { tma = value }
    else if addr == 0xff07
    then record t { tac = value }
    else t

-- `kTimaPeriods`
unfoldable pub tima_periods : ℕ → ℕ
tima_periods k = if k == 0 then 1024 else if k == 1 then 16 else if k == 2 then 64 else 256

-- DIV advances at most once per call.
unfoldable pub div_step : Timer → ℕ → Timer
div_step t ticks =
    let accum = t.div_accum + ticks in
    if ltb 0xff accum
    then record t { div = u8 (t.div + 1); div_accum = accum - 0x100 }
    else record t { div_accum = accum }

-- The inner loop, `for (;;)`: `true` is its `break` when TIMA wraps, `false` its `return`.
unfoldable pub count_tima : ℕ → Timer → Timer × Bool
count_tima zero t = (t, false)
count_tima (suc fuel) t =
    let t' = record t { tima = u8 (t.tima + 1); tima_accum = t.tima_accum - t.tima_period } in
    let rest = count_tima fuel t' in
    if t'.tima == 0
    then (t', true)
    else if ltb t'.tima_accum t'.tima_period
    then (t', false)
    else rest

-- The outer loop, with the interrupt flags. TIMA has 256 values, so the inner loop ends in 256
-- rounds.
unfoldable pub run_tima : ℕ → Timer → ℕ → Timer × ℕ
run_tima zero t flags = (t, flags)
run_tima (suc fuel) t flags =
    let inner = count_tima 256 t in
    let rest = run_tima fuel (record (inner.0) { tima = inner.0.tma }) (bit_or flags 0xe4) in
    let body = if inner.1 then rest else (inner.0, flags) in
    if leb t.tima_period t.tima_accum then body else (t, flags)

-- Each round of the outer loop takes a period from the accumulator, so its value bounds the rounds.
unfoldable pub timer_step : Timer → ℕ → ℕ → Timer × ℕ
timer_step t flags ticks =
    let t1 = div_step t ticks in
    let t2 = record t1 {
      tima_period = tima_periods (t1.tac % 4);
      tima_accum = t1.tima_accum + ticks;
    } in
    if bit t1.tac 2 == 0 then (t1, flags) else run_tima t2.tima_accum t2 flags
