-- ===== src/Platform/Window/Pace.antt =====
-- The clock and the pace of the frames: `MonotonicNs` and `PaceFrame` of
-- carbon-pc/src/platform/win32/Platform_win32.cpp.
use native.Mathlib.Nat.{mul-add-div_right, div-add-mod', mul_right_comm}
use open_carbon.Base.{
  ℕ, ◌+◌, ◌*◌, ◌/◌, ◌%◌, ◌^◌, ◌≤◌, ◌<◌, ◌≡◌, ◌≢◌, sym, ap, ◌∙◌, arith, List, [], ◌∷◌, true, length,
}
use open_carbon.Platform.Window.{monotonic_ns, Pacer, period_ns, pace_frame}

-- The nanoseconds of a counter are its value times a billion over its frequency, rounded down once:
-- taking the seconds first, which keeps the products small, loses nothing.
pub monotonic_ns-div : (freq t : ℕ) → 0 < freq → monotonic_ns freq t ≡ t * 10 ^ 9 / freq
unfolding monotonic_ns
monotonic_ns-div freq t h =
    let split : t / freq * 10 ^ 9 * freq + t % freq * 10 ^ 9 ≡ t * 10 ^ 9 =
      omega (arith, mul_right_comm (t / freq) (10 ^ 9) freq, div-add-mod' t freq) in
    sym (mul-add-div_right h (t / freq * 10 ^ 9) (t % freq * 10 ^ 9)) ∙ ap (λ n. n / freq) split

-- Frames paced by the timer, at the clock's readings.
abbrev pub paced : List ℕ → Pacer → Pacer
paced [] p = p
paced (now ∷ rest) p = paced rest (pace_frame now now p).0

-- No reading is more than two periods past its frame's deadline, of which the first is `next`.
abbrev pub InTime : ℕ → List ℕ → Type 0
InTime next [] = Unit
InTime next (now ∷ rest) = (now ≤ next + 2 * period_ns) × InTime (next + period_ns) rest

-- A timer's frames that are never more than two periods late keep to their schedule: after `n` of
-- them the next deadline is `n` periods on.
on_schedule :
    (now : ℕ) (p : Pacer)
    → p.timer ≡ true
    → p.next ≢ 0
    → now ≤ p.next + 2 * period_ns
    → ((pace_frame now now p).0.next ≡ p.next + period_ns) × ((pace_frame now now p).0.timer ≡ true)
unfolding pace_frame
on_schedule now p t h k = ground arith

pub paced-InTime :
    (readings : List ℕ) (p : Pacer)
    → p.timer ≡ true
    → p.next ≢ 0
    → InTime p.next readings
    → (paced readings p).next ≡ p.next + length readings * period_ns
unfolding pace_frame
paced-InTime [] p t h k = omega arith
paced-InTime (now ∷ rest) p t h k =
    let (next, timer) = on_schedule now p t h k.0 in
    omega (
      arith,
      next,
      paced-InTime rest (pace_frame now now p).0 timer (omega (arith, next)) (rw next (k.1)),
    )
