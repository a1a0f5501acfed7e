-- ===== src/Video/Lcd/Position.antt =====
-- `LcdStep` of carbon-pc/src/gb/Video.cpp as a clock: a frame has 154 lines of 456 ticks.
use open_carbon.Base.{
  ℕ, ◌+◌, ◌-◌, ◌*◌, ◌%◌, ◌^◌, ◌≤◌, ◌<◌, ◌≡◌, ◌≢◌, ◌⊎◌, refl, sym, ap, ◌∙◌, arith, ltb→lt, ◌&&◌, ltb,
  ◌==◌, if◌then◌else◌, bit, Bool-cases, inl, inr,
}
use native.Mathlib.Nat.{mod-eq_of_lt}
use open_carbon.State.{Machine}
use open_carbon.Video.Lcd.{
  lcd_step, mode_length, mode_end, vblank_line_end, draw_end, hblank_end, set_stat, set_accum,
}
use open_carbon.Video.Lcd.Leaves.{
  masked, Leaves, vblank_line_end-Leaves, draw_end-Leaves, hblank_end-Leaves,
}

abbrev pub frame_ticks : ℕ
frame_ticks = 154 * 456

-- Line 153 is shown as line 0, still in mode 1.
abbrev pub line : ℕ → ℕ → ℕ
line mode ly = if mode == 1 && ly == 0 then 153 else ly

-- Where a mode begins within its line.
abbrev pub mode_start : ℕ → ℕ
mode_start mode = if mode == 3 then 80 else if mode == 0 then 252 else 0

-- The ticks since the first line began.
abbrev pub position : Machine → ℕ
position m =
    let mode = m.video.stat % 4 in
    line mode m.video.ly * 456 + mode_start mode + m.screen.lcd_tick_accum

-- Lines 0 to 143 are drawn, in modes 2, 3 and 0; lines 144 to 153 are mode 1.
pub record IsTimed (m : Machine) : Type 0 where
  pub accum : m.screen.lcd_tick_accum < mode_length (m.video.stat % 4)
  pub drawn : (m.video.stat % 4 ≢ 1) → m.video.ly < 144
  pub blank : m.video.stat % 4 ≡ 1 → (m.video.ly ≡ 0) ⊎ ((144 ≤ m.video.ly) × (m.video.ly ≤ 152))
  pub byte : m.video.stat < 2 ^ 8

-- A machine at a known mode, line and accumulator.
arrives :
    (m : Machine) (mode ly accum : ℕ)
    → Leaves m mode ly accum
    → accum < mode_length mode
    → (mode ≢ 1 → ly < 144)
    → (mode ≡ 1 → (ly ≡ 0) ⊎ ((144 ≤ ly) × (ly ≤ 152)))
    → IsTimed m × (position m ≡ line mode ly * 456 + mode_start mode + accum)
arrives m mode ly accum at within drawn blank = (
  record {
    accum = rw (at.stat_mode, at.accum_is) within;
    drawn = rw (at.stat_mode, at.ly_is) drawn;
    blank = rw (at.stat_mode, at.ly_is) blank;
    byte = at.stat_byte;
  },
  rw (at.stat_mode, at.ly_is, at.accum_is),
)

-- The step from one mode to the next, by the mode that ends. `at` is the position before it.
module _ (m : Machine) (accum : ℕ) (timed : IsTimed m) (idle : m.video.hdma_active ≡ 0) where
  vblank_end-position :
      m.video.stat % 4 ≡ 1
      → 456 ≤ accum
      → accum < 456 + 80
      → let m' = vblank_line_end accum m in
        IsTimed m' × (position m' ≡ (line 1 m.video.ly * 456 + accum) % frame_ticks)
  unfolding mode_length
  vblank_end-position mode least most = ground (
    arith,
    arrives (vblank_line_end accum m) _ _ _
        (vblank_line_end-Leaves accum m timed.byte mode (ground (arith, timed.blank mode)))
        (ground arith) (ground (arith, timed.blank mode)) (ground (arith, timed.blank mode)),
    timed.blank mode,
  )

  draw_end-position :
      m.video.stat % 4 ≡ 3
      → 172 ≤ accum
      → accum < 172 + 80
      → let m' = draw_end accum m in IsTimed m' × (position m' ≡ m.video.ly * 456 + 80 + accum)
  unfolding mode_length
  draw_end-position mode least most =
      let drawn = timed.drawn (omega arith) in
      ground (
        arith,
        arrives (draw_end accum m) 0 _ _ (draw_end-Leaves accum m timed.byte mode idle)
            (ground arith) (λ e. drawn) (λ e. absurd (omega arith)),
      )

  hblank_end-position :
      m.video.stat % 4 ≡ 0
      → 204 ≤ accum
      → accum < 204 + 80
      → let m' = hblank_end accum m in IsTimed m' × (position m' ≡ m.video.ly * 456 + 252 + accum)
  unfolding mode_length
  hblank_end-position mode least most =
      let drawn = timed.drawn (omega arith) in
      ground (
        arith,
        arrives (hblank_end accum m) _ _ _ (hblank_end-Leaves accum m timed.byte drawn)
            (ground arith) (ground arith) (ground arith),
      )

  search_end-position :
      m.video.stat % 4 ≡ 2
      → 80 ≤ accum
      → accum < 80 + 80
      → let m' = mode_end 2 accum m in IsTimed m' × (position m' ≡ m.video.ly * 456 + accum)
  unfolding mode_length mode_end set_stat
  search_end-position mode least most =
      let drawn = timed.drawn (omega arith) in
      let masks = masked m.video.stat timed.byte in
      ground (
        arith,
        arrives (mode_end 2 accum m) 3 m.video.ly (accum - 80)
            (record {
              stat_mode = omega (arith, masks.drawing);
              stat_byte = omega (arith, masks.drawing);
              ly_is = refl;
              accum_is = refl;
            })
            (ground arith) (λ e. drawn) (λ e. absurd (omega arith)),
      )

  mode_end-position :
      mode_length (m.video.stat % 4) ≤ accum
      → accum < mode_length (m.video.stat % 4) + 80
      → let m' = mode_end (m.video.stat % 4) accum m in
        let mode = m.video.stat % 4 in
        IsTimed m'
        × (position m' ≡ (line mode m.video.ly * 456 + mode_start mode + accum) % frame_ticks)
  unfolding mode_end mode_length
  mode_end-position least most = elim (Bool-cases (m.video.stat % 4 == 2)) [
    | inl searching ↦
        rw searching
          (ground (arith, timed.drawn (ground arith), search_end-position (ground arith)))
    | inr other ↦
        ground (arith, timed.drawn, vblank_end-position, draw_end-position, hblank_end-position)
  ]

in_frame :
    (mode ly accum : ℕ)
    → mode < 4
    → accum < mode_length mode
    → (mode ≢ 1 → ly < 144)
    → (mode ≡ 1 → (ly ≡ 0) ⊎ ((144 ≤ ly) × (ly ≤ 152)))
    → line mode ly * 456 + mode_start mode + accum < frame_ticks
unfolding mode_length
in_frame mode ly accum few within drawn blank = ground arith

-- The LCD as a clock: while it is on and no transfer runs, a step of at most 80 ticks moves the
-- position in the frame by just these ticks, around 154 lines of 456, and keeps the ranges of mode,
-- line and accumulator.
pub lcd_step-position :
    (ticks : ℕ) (m : Machine)
    → ticks ≤ 80
    → IsTimed m
    → bit m.video.lcdc 7 ≡ 1
    → m.video.hdma_active ≡ 0
    → IsTimed (lcd_step ticks m)
      × (position (lcd_step ticks m) ≡ (position m + ticks) % frame_ticks)
unfolding lcd_step
lcd_step-position ticks m few timed on idle =
    rw on (elim (Bool-cases (ltb accum (mode_length mode))) [
      | inl stays ↦ rw stays (
          let kept =
            arrives (set_accum accum m0) mode m.video.ly accum
              (record { stat_mode = refl; stat_byte = timed.byte; ly_is = refl; accum_is = refl })
              (ltb→lt _ _ stays) timed.drawn timed.blank in
          (
            kept.0,
            kept.1
                ∙ sym (mod-eq_of_lt (bound (ltb→lt _ _ stays)))
                ∙ ap (λ n. n % frame_ticks) (omega arith),
          ))
      | inr ends ↦ rw ends (
          let moved =
            mode_end-position m0 accum timed0 idle (ground arith) (omega (arith, timed.accum)) in
          (moved.0, moved.1 ∙ ap (λ n. n % frame_ticks) (omega arith)))
    ])
  where
    mode : ℕ
    mode = m.video.stat % 4

    accum : ℕ
    accum = m.screen.lcd_tick_accum + ticks

    m0 : Machine
    m0 = record m { screen = record (m.screen) { lcd_mode = mode } }

    timed0 : IsTimed m0
    timed0 = record {
      accum = timed.accum;
      drawn = timed.drawn;
      blank = timed.blank;
      byte = timed.byte;
    }

    bound :
        accum < mode_length mode
        → line mode m.video.ly * 456 + mode_start mode + accum < frame_ticks
    bound within = in_frame mode m.video.ly accum (omega arith) within timed.drawn timed.blank
