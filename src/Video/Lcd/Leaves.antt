-- ===== src/Video/Lcd/Leaves.antt =====
-- The mode, the line and the accumulator that each end of a mode leaves in `LcdStep` of
-- carbon-pc/src/gb/Video.cpp.
use open_carbon.Base.{
  ℕ, Bool, ◌+◌, ◌-◌, ◌*◌, ◌/◌, ◌%◌, ◌^◌, ◌≤◌, ◌<◌, ◌≡◌, refl, arith, true, ◌&&◌, ltb, ◌==◌,
  if◌then◌else◌, bit_and, bit_or, u8, all_below, all_below_sound,
}
use open_carbon.State.{Machine}
use open_carbon.Video.Lcd.{
  vblank_line_end, draw_end, hblank_end, set_stat, enter_mode, compare_lyc, raise_on_match,
  raise_on_mode,
}
use open_carbon.Video.Lcd.Scanline.{render_scanline-DrawnLine}

-- What the masks of LcdStep make of a status byte.
masks : ℕ → Bool
masks s =
    (bit_or s 4 % 4 == s % 4 && ltb (bit_or s 4) 256)
    && (bit_and s 0xffff_fffb % 4 == s % 4 && ltb (bit_and s 0xffff_fffb) 256)
    && (bit_or (bit_and s 0xfc) 2 == s / 4 * 4 + 2 && bit_or (bit_and s 0xfc) 1 == s / 4 * 4 + 1)
    && (bit_and s 0xfc == s / 4 * 4 && bit_or s 3 == s / 4 * 4 + 3)

masks_table : all_below 256 masks ≡ true
unfolding all_below masks
masks_table = refl

pub record Masked (s : ℕ) : Type 0 where
  pub set_mode : bit_or s 4 % 4 ≡ s % 4
  pub set_byte : bit_or s 4 < 2 ^ 8
  pub clear_mode : bit_and s 0xffff_fffb % 4 ≡ s % 4
  pub clear_byte : bit_and s 0xffff_fffb < 2 ^ 8
  pub searching : bit_or (bit_and s 0xfc) 2 ≡ s / 4 * 4 + 2
  pub blanking : bit_or (bit_and s 0xfc) 1 ≡ s / 4 * 4 + 1
  pub low : bit_and s 0xfc ≡ s / 4 * 4
  pub drawing : bit_or s 3 ≡ s / 4 * 4 + 3

pub masked : (s : ℕ) → s < 2 ^ 8 → Masked s
unfolding masks
masked s h = ground (arith, all_below_sound 256 masks s masks_table h)

compare_lyc-mode :
    (m : Machine) (ly stat : ℕ)
    → stat < 2 ^ 8
    → (compare_lyc m ly stat < 2 ^ 8) × (compare_lyc m ly stat % 4 ≡ stat % 4)
unfolding compare_lyc
compare_lyc-mode m ly stat h = ground (arith, masked stat h)

-- The flags that a step raises are all that these two change.
pub raise_on_match-video :
    (s : ℕ) (m : Machine)
    → ((raise_on_match s m).video ≡ m.video) × ((raise_on_match s m).screen ≡ m.screen)
unfolding raise_on_match
raise_on_match-video s m = ground arith

pub raise_on_mode-video :
    (k s : ℕ) (m : Machine)
    → ((raise_on_mode k s m).video ≡ m.video) × ((raise_on_mode k s m).screen ≡ m.screen)
unfolding raise_on_mode
raise_on_mode-video k s m = ground arith

enter_mode-stat :
    (s : ℕ) (m : Machine)
    → s < 2 ^ 8
    → ((enter_mode 2 s m).video.stat ≡ s / 4 * 4 + 2)
      × ((enter_mode 1 s m).video.stat ≡ s / 4 * 4 + 1)
unfolding enter_mode set_stat
enter_mode-stat s m h = ground (arith, masked s h)

-- What a step leaves: the mode, the line, the accumulator.
pub record Leaves (m : Machine) (mode ly accum : ℕ) : Type 0 where
  pub stat_mode : m.video.stat % 4 ≡ mode
  pub stat_byte : m.video.stat < 2 ^ 8
  pub ly_is : m.video.ly ≡ ly
  pub accum_is : m.screen.lcd_tick_accum ≡ accum

pub vblank_line_end-Leaves :
    (accum : ℕ) (m : Machine)
    → m.video.stat < 2 ^ 8
    → m.video.stat % 4 ≡ 1
    → m.video.ly ≤ 152
    → Leaves
        (vblank_line_end accum m)
        (if m.video.ly == 0 then 2 else 1)
        (if m.video.ly == 0 then 0 else if m.video.ly == 152 then 0 else m.video.ly + 1)
        (accum - 456)
unfolding vblank_line_end set_stat enter_mode
vblank_line_end-Leaves accum m byte mode few =
    let v = m.video in
    let s =
      compare_lyc (record m { screen = record (m.screen) { lcd_tick_accum = accum - 456 } })
        (u8 (v.ly + 1)) v.stat in
    let start = record m {
      screen = record (m.screen) { lcd_tick_accum = accum - 456 };
      video = record v { stat = u8 s };
    } in
    let m1 = raise_on_match s start in
    let s2 = compare_lyc m1 0 s in
    let lined =
      compare_lyc-mode (record m { screen = record (m.screen) { lcd_tick_accum = accum - 456 } })
        (u8 (v.ly + 1)) v.stat byte in
    ground (
      arith,
      lined,
      raise_on_match-video s start,
      raise_on_mode-video 5 s m1,
      masked (u8 s) (omega arith),
      compare_lyc-mode m1 0 s lined.0,
      raise_on_match-video s2
          (record m1 { video = record (m1.video) { window_line = 0; ly = 0; stat = u8 s2 } }),
    )

pub draw_end-Leaves :
    (accum : ℕ) (m : Machine)
    → m.video.stat < 2 ^ 8
    → m.video.stat % 4 ≡ 3
    → m.video.hdma_active ≡ 0
    → Leaves (draw_end accum m) 0 m.video.ly (accum - 172)
unfolding draw_end set_stat
draw_end-Leaves accum m byte mode idle =
    let start = record m { screen = record (m.screen) { lcd_tick_accum = accum - 172 } } in
    let m1 = raise_on_mode 3 m.video.stat start in
    let low = set_stat (bit_and m1.video.stat 0xfc) m1 in
    let drawn = render_scanline-DrawnLine low in
    ground (
      arith,
      raise_on_mode-video 3 m.video.stat start,
      masked m.video.stat byte,
      drawn.rest,
      drawn.screen.lcd_tick_accum,
    )

pub hblank_end-Leaves :
    (accum : ℕ) (m : Machine)
    → m.video.stat < 2 ^ 8
    → m.video.ly < 144
    → Leaves
        (hblank_end accum m)
        (if m.video.ly == 143 then 1 else 2)
        (m.video.ly + 1)
        (accum - 204)
unfolding hblank_end set_stat enter_mode
hblank_end-Leaves accum m byte few =
    let v = m.video in
    let start = record m {
      screen = record (m.screen) { lcd_tick_accum = accum - 204 };
      video = record v { ly = u8 (v.ly + 1) };
    } in
    let s = compare_lyc start (u8 (v.ly + 1)) v.stat in
    let m1 = raise_on_match s start in
    let lined = compare_lyc-mode start (u8 (v.ly + 1)) v.stat byte in
    ground (
      arith,
      lined,
      raise_on_match-video s start,
      raise_on_mode-video 5 s m1,
      raise_on_mode-video 4 s m1,
      masked s lined.0,
    )
