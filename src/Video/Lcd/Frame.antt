-- ===== src/Video/Lcd/Frame.antt =====
-- What `LcdStep` of carbon-pc/src/gb/Video.cpp leaves alone.
use open_carbon.Base.{ℕ, ◌+◌, ◌-◌, ◌%◌, ◌^◌, ◌≡◌, arith, ◌==◌, Bool-cases, inl, inr, bit_and, u8}
use open_carbon.State.{Machine}
use open_carbon.Memory.{write8, dma_copy16}
use open_carbon.Memory.Frame.{dma_copy16-Untouched, write8-Untouched}
use open_carbon.Video.Lcd.{
  lcd_step, mode_end, vblank_line_end, draw_end, hblank_end, hblank_transfer, lcd_off, set_accum,
  set_stat, raise_on_match, raise_on_mode, enter_mode, render_scanline, compare_lyc,
}
use open_carbon.Video.Lcd.Scanline.{render_scanline-DrawnLine}

-- The registers and the sound clock.
pub record Aside (m m' : Machine) : Type 0 where
  pub regs : m'.regs ≡ m.regs
  pub apu_time : m'.apu_time ≡ m.apu_time

raise_on_match-Aside : (s : ℕ) (m : Machine) → Aside m (raise_on_match s m)
unfolding raise_on_match
raise_on_match-Aside s m = ground arith

raise_on_mode-Aside : (k s : ℕ) (m : Machine) → Aside m (raise_on_mode k s m)
unfolding raise_on_mode
raise_on_mode-Aside k s m = ground arith

copy-Aside : (m : Machine) → Aside m (dma_copy16 write8 m)
copy-Aside m =
    let kept = dma_copy16-Untouched write8 write8-Untouched m in
    record { regs = kept.regs; apu_time = kept.apu_time }

hblank_transfer-Aside : (m : Machine) → Aside m (hblank_transfer m)
unfolding hblank_transfer
hblank_transfer-Aside m = elim (Bool-cases (m.video.hdma_length % 2 ^ 7 == 0)) [
  | inl ends ↦
      rw ends
        (ground (arith, copy-Aside (record m { video = record (m.video) { hdma_active = 0 } })))
  | inr goes ↦ rw goes (ground (arith, copy-Aside m))
]

draw_end-Aside : (accum : ℕ) (m : Machine) → Aside m (draw_end accum m)
unfolding draw_end set_stat
draw_end-Aside accum m =
    let start = set_accum (accum - 172) m in
    let m1 = raise_on_mode 3 m.video.stat start in
    let low = set_stat (bit_and m1.video.stat 0xfc) m1 in
    let drawn = (render_scanline-DrawnLine low).rest in
    ground (
      arith,
      raise_on_mode-Aside 3 m.video.stat start,
      drawn,
      hblank_transfer-Aside (render_scanline low),
    )

hblank_end-Aside : (accum : ℕ) (m : Machine) → Aside m (hblank_end accum m)
unfolding hblank_end set_stat enter_mode
hblank_end-Aside accum m =
    let v = m.video in
    let start = record m {
      screen = record (m.screen) { lcd_tick_accum = accum - 204 };
      video = record v { ly = u8 (v.ly + 1) };
    } in
    let s = compare_lyc start (u8 (v.ly + 1)) v.stat in
    let m1 = raise_on_match s start in
    ground
      (arith, raise_on_match-Aside s start, raise_on_mode-Aside 5 s m1, raise_on_mode-Aside 4 s m1)

vblank_line_end-Aside : (accum : ℕ) (m : Machine) → Aside m (vblank_line_end accum m)
unfolding vblank_line_end set_stat enter_mode
vblank_line_end-Aside accum m =
    let start = set_accum (accum - 456) m in
    let s = compare_lyc start (u8 (m.video.ly + 1)) m.video.stat in
    let m1 = raise_on_match s (set_stat (u8 s) start) in
    let s2 = compare_lyc m1 0 s in
    ground (
      arith,
      raise_on_match-Aside s (set_stat (u8 s) start),
      raise_on_mode-Aside 5 s m1,
      raise_on_match-Aside s2
          (record m1 { video = record (m1.video) { window_line = 0; ly = 0; stat = u8 s2 } }),
    )

-- A step of the LCD has its own state and that of the memory it copies, not the CPU's.
pub lcd_step-Aside : (ticks : ℕ) (m : Machine) → Aside m (lcd_step ticks m)
unfolding lcd_step lcd_off mode_end set_stat
lcd_step-Aside ticks m =
    let accum = m.screen.lcd_tick_accum + ticks in
    let m' = record m { screen = record (m.screen) { lcd_mode = m.video.stat % 4 } } in
    ground
      (arith, draw_end-Aside accum m', hblank_end-Aside accum m', vblank_line_end-Aside accum m')
