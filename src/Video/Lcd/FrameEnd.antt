-- ===== src/Video/Lcd/FrameEnd.antt =====
-- When `LcdStep` of carbon-pc/src/gb/Video.cpp ends a frame.
use open_carbon.Base.{
  ℕ, ◌+◌, ◌-◌, ◌*◌, ◌%◌, ◌≤◌, ◌<◌, ◌≡◌, arith, ◌&&◌, ltb, leb, ◌==◌, if◌then◌else◌, bit_and, bit,
  u8,
}
use open_carbon.State.{Machine}
use open_carbon.Video.Lcd.{
  lcd_step, mode_length, mode_end, vblank_line_end, draw_end, hblank_end, set_stat, enter_mode,
  compare_lyc, raise_on_match, raise_on_mode, set_accum,
}
use open_carbon.Video.Lcd.Scanline.{render_scanline-DrawnLine}
use open_carbon.Video.Lcd.Leaves.{raise_on_match-video, raise_on_mode-video}
use open_carbon.Video.Lcd.Position.{IsTimed, position}

vblank_line_end-frame_done :
    (accum : ℕ) (m : Machine) → (vblank_line_end accum m).screen.frame_done ≡ m.screen.frame_done
unfolding vblank_line_end set_stat enter_mode
vblank_line_end-frame_done accum m =
    let start = set_accum (accum - 456) m in
    let s = compare_lyc start (u8 (m.video.ly + 1)) m.video.stat in
    let m1 = raise_on_match s (set_stat (u8 s) start) in
    let s2 = compare_lyc m1 0 s in
    ground (
      arith,
      raise_on_match-video s (set_stat (u8 s) start),
      raise_on_mode-video 5 s m1,
      raise_on_match-video s2
          (record m1 { video = record (m1.video) { window_line = 0; ly = 0; stat = u8 s2 } }),
    )

draw_end-frame_done :
    (accum : ℕ) (m : Machine)
    → m.video.hdma_active ≡ 0
    → (draw_end accum m).screen.frame_done ≡ m.screen.frame_done
unfolding draw_end set_stat
draw_end-frame_done accum m idle =
    let start = set_accum (accum - 172) m in
    let m1 = raise_on_mode 3 m.video.stat start in
    let low = set_stat (bit_and m1.video.stat 0xfc) m1 in
    let drawn = render_scanline-DrawnLine low in
    ground (arith, raise_on_mode-video 3 m.video.stat start, drawn.rest, drawn.screen.frame_done)

hblank_end-frame_done :
    (accum : ℕ) (m : Machine)
    → m.video.ly < 144
    → (hblank_end accum m).screen.frame_done
      ≡ (if m.video.ly == 143 then 1 else m.screen.frame_done)
unfolding hblank_end set_stat enter_mode
hblank_end-frame_done accum m few =
    let v = m.video in
    let start = record m {
      screen = record (m.screen) { lcd_tick_accum = accum - 204 };
      video = record v { ly = u8 (v.ly + 1) };
    } in
    let s = compare_lyc start (u8 (v.ly + 1)) v.stat in
    let m1 = raise_on_match s start in
    ground
      (arith, raise_on_match-video s start, raise_on_mode-video 5 s m1, raise_on_mode-video 4 s m1)

-- While the LCD is on and no transfer runs, a step of at most 80 ticks ends the frame exactly when
-- it takes the position past the last drawn line; otherwise the flag stays.
pub lcd_step-frame_done :
    (ticks : ℕ) (m : Machine)
    → ticks ≤ 80
    → IsTimed m
    → bit m.video.lcdc 7 ≡ 1
    → m.video.hdma_active ≡ 0
    → (lcd_step ticks m).screen.frame_done ≡ (
        if ltb (position m) (144 * 456) && leb (144 * 456) (position m + ticks)
        then 1
        else m.screen.frame_done)
unfolding lcd_step mode_end mode_length set_stat
lcd_step-frame_done ticks m few timed on idle =
    let accum = m.screen.lcd_tick_accum + ticks in
    let m0 = record m { screen = record (m.screen) { lcd_mode = m.video.stat % 4 } } in
    ground (
      arith,
      timed.accum,
      timed.drawn,
      timed.blank,
      vblank_line_end-frame_done accum m0,
      draw_end-frame_done accum m0 idle,
      hblank_end-frame_done accum m0,
    )
