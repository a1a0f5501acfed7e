-- ===== src/Memory/Timer/Count.antt =====
-- `TimerStep` of carbon-pc/src/gb/Memory.cpp against a timer that counts one period at a time.
use open_carbon.Base.{
  ℕ, zero, suc, ◌+◌, ◌-◌, ◌/◌, ◌%◌, ◌^◌, ◌≤◌, ◌<◌, ◌≡◌, refl, arith, Bool, true, false, ltb, leb,
  leb→le, ◌==◌, sym, ap, ◌∙◌, if◌then◌else◌, bit_or, bit, Bool-cases, inl, inr,
}
use native.Mathlib.Nat.{le_refl, div-eq_of_lt, mod-eq_of_lt}
use open_carbon.State.{Timer}
use open_carbon.Memory.Timer.{tima_periods, div_step, count_tima, run_tima, timer_step}

-- TIMA and the interrupt flags after one period: 0xff is followed by TMA, with the flags raised.
abbrev pub tick_once : ℕ → ℕ × ℕ → ℕ × ℕ
tick_once tma s = if s.0 == 0xff then (tma, bit_or s.1 0xe4) else (s.0 + 1, s.1)

abbrev pub tick_many : ℕ → ℕ → ℕ × ℕ → ℕ × ℕ
tick_many zero tma s = s
tick_many (suc n) tma s = tick_many n tma (tick_once tma s)

quotient_step : (a p : ℕ) → 0 < p → p ≤ a → (a / p ≡ suc ((a - p) / p)) × ((a - p) % p ≡ a % p)
quotient_step a p pos h = (grind arith, grind arith)

-- Where TIMA goes on from after the inner loop: it was reloaded, or it was not.
abbrev resumed : Bool → ℕ → ℕ → ℕ → ℕ × ℕ
resumed true tima tma flags = (tma, bit_or flags 0xe4)
resumed false tima tma flags = (tima, flags)

-- The inner loop from `t` to `t'`: it has used up whole periods, and counted each of them.
record Counts (t t' : Timer) (wrapped : Bool) : Type 0 where
  period : t'.tima_period ≡ t.tima_period
  tma : t'.tma ≡ t.tma
  byte : t'.tima < 2 ^ 8
  used : t'.tima_accum < t.tima_accum
  remainder : t'.tima_accum % t.tima_period ≡ t.tima_accum % t.tima_period
  counted :
      (flags : ℕ)
      → tick_many (t.tima_accum / t.tima_period) t.tma (t.tima, flags)
        ≡ tick_many (t'.tima_accum / t.tima_period) t.tma (resumed wrapped t'.tima t.tma flags)
  ended : wrapped ≡ false → t'.tima_accum < t.tima_period

-- One round of the inner loop.
abbrev pub counted_once : Timer → Timer
counted_once t = record t { tima = (t.tima + 1) % 2 ^ 8; tima_accum = t.tima_accum - t.tima_period }

count_tima-Counts :
    (fuel : ℕ) (t : Timer)
    → 2 ^ 8 ≤ t.tima + fuel
    → t.tima < 2 ^ 8
    → 0 < t.tima_period
    → t.tima_period ≤ t.tima_accum
    → Counts t (count_tima fuel t).0 (count_tima fuel t).1
unfolding count_tima
count_tima-Counts zero t enough byte pos due = absurd (omega arith)
count_tima-Counts (suc fuel) t enough byte pos due =
    let (quotient, remainder) = quotient_step t.tima_accum t.tima_period pos due in
    elim (Bool-cases ((counted_once t).tima == 0)) [
      | inl wraps ↦ rw wraps (record {
        period = refl;
        tma = refl;
        byte = omega arith;
        used = omega arith;
        remainder = remainder;
        counted = λ flags. rw quotient (ground arith);
        ended = λ e. ground arith;
      })
      | inr counts ↦
          rw counts (elim (Bool-cases (ltb (t.tima_accum - t.tima_period) t.tima_period)) [
            | inl over ↦ rw over (record {
              period = refl;
              tma = refl;
              byte = omega arith;
              used = omega arith;
              remainder = remainder;
              counted = λ flags. rw quotient (ground arith);
              ended = λ e. ground arith;
            })
            | inr more ↦ rw more (
                let rest =
                  count_tima-Counts fuel (counted_once t) (ground arith) (omega arith) pos
                    (ground arith) in
                record {
                  period = rest.period;
                  tma = rest.tma;
                  byte = rest.byte;
                  used = omega (arith, rest.used);
                  remainder = rest.remainder ∙ remainder;
                  counted = λ flags. rw quotient (ground (arith, rest.counted flags));
                  ended = rest.ended;
                })
          ])
    ]

-- With less than a period on the accumulator there is nothing to count.
idle :
    (t : Timer) (flags : ℕ)
    → t.tima_accum < t.tima_period
    → ((t.tima, flags) ≡ tick_many (t.tima_accum / t.tima_period) t.tma (t.tima, flags))
      × (t.tima_accum ≡ t.tima_accum % t.tima_period)
idle t flags less = rw (div-eq_of_lt less, mod-eq_of_lt less) (refl, refl)

-- What the outer loop should leave of a timer and its flags.
abbrev IsCounted : Timer → ℕ → Timer × ℕ → Type 0
IsCounted t flags (t', flags') =
    ((t'.tima, flags') ≡ tick_many (t.tima_accum / t.tima_period) t.tma (t.tima, flags))
    × (t'.tima_accum ≡ t.tima_accum % t.tima_period)

-- After the inner loop the outer one goes on or returns.
resume :
    (t t1 : Timer) (wrapped : Bool) (flags : ℕ) (rest : Timer × ℕ)
    → Counts t t1 wrapped
    → IsCounted (record t1 { tima = t1.tma }) (bit_or flags 0xe4) rest
    → IsCounted t flags (if wrapped then rest else (t1, flags))
resume t t1 true flags rest inner later = (
  later.0 ∙ rw (inner.period, inner.tma) (sym (inner.counted flags)),
  later.1 ∙ rw inner.period inner.remainder,
)
resume t t1 false flags rest inner later =
    let less = inner.ended refl in
    (
      sym (inner.counted flags ∙ ap (λ n. tick_many n t.tma (t1.tima, flags)) (div-eq_of_lt less)),
      sym (mod-eq_of_lt less) ∙ inner.remainder,
    )

-- The outer loop counts every period of the accumulator, and leaves what is over.
run_tima_lem :
    (fuel : ℕ) (t : Timer) (flags : ℕ)
    → t.tima_accum ≤ fuel
    → t.tima < 2 ^ 8
    → t.tma < 2 ^ 8
    → 0 < t.tima_period
    → IsCounted t flags (run_tima fuel t flags)
unfolding run_tima
run_tima_lem zero t flags enough byte reload pos = idle t flags (omega arith)
run_tima_lem (suc fuel) t flags enough byte reload pos =
    elim (Bool-cases (leb t.tima_period t.tima_accum)) [
      | inr less ↦ rw less (idle t flags (ground arith))
      | inl due ↦ rw due (
          let inner = count_tima-Counts 256 t (omega arith) byte pos (leb→le _ _ due) in
          let t1 = (count_tima 256 t).0 in
          resume t t1 (count_tima 256 t).1 flags _ inner (
            run_tima_lem fuel (record t1 { tima = t1.tma }) (bit_or flags 0xe4)
              (omega (arith, inner.used)) (omega (arith, inner.tma)) (omega (arith, inner.tma))
              (omega (arith, inner.period))))
    ]

tima_periods-pos : (k : ℕ) → 0 < tima_periods k
unfolding tima_periods
tima_periods-pos k = ground arith

-- With the timer enabled, and TIMA and TMA bytes, a step counts every period that the ticks complete: TIMA goes up by one for
-- each, from 0xff to TMA with the flags raised, and the accumulator keeps the remainder.
pub timer_step-tick_many :
    (t : Timer) (flags ticks : ℕ)
    → t.tima < 2 ^ 8
    → t.tma < 2 ^ 8
    → bit t.tac 2 ≡ 1
    → let (t', flags') = timer_step t flags ticks in
      let period = tima_periods (t.tac % 4) in
      ((t'.tima, flags') ≡ tick_many ((t.tima_accum + ticks) / period) t.tma (t.tima, flags))
      × (t'.tima_accum ≡ (t.tima_accum + ticks) % period)
unfolding timer_step div_step
timer_step-tick_many t flags ticks byte reload enabled =
    elim (Bool-cases (ltb 0xff (t.div_accum + ticks))) [
      | inl over ↦ rw (over, enabled) (run_tima_lem _ _ flags (le_refl _) byte reload pos)
      | inr under ↦ rw (under, enabled) (run_tima_lem _ _ flags (le_refl _) byte reload pos)
    ]
  where
    pos : 0 < tima_periods (t.tac % 4)
    pos = tima_periods-pos (t.tac % 4)
