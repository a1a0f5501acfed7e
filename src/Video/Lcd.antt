-- ===== src/Video/Lcd.antt =====
-- `LcdStep`, `RenderScanline` and `VideoReset` of carbon-pc/src/gb/Video.cpp.
pub mod Frame
pub mod FrameEnd
pub mod Leaves
pub mod Position
pub mod Scanline
use open_carbon.Base.{
  ℕ, ◌+◌, ◌-◌, ◌%◌, ◌^◌, not, ◌&&◌, ltb, leb, ◌==◌, if◌then◌else◌, bit_and, bit_or, u8, u16, bit,
}
use open_carbon.State.{Machine, Video, Screen}
use open_carbon.Memory.{write8, dma_copy16}
use open_carbon.Video.Background.{render_bg, render_window}
use open_carbon.Video.Sprites.{render_sprites}

-- The branches for monochrome games are not in the program.
unfoldable pub render_scanline : Machine → Machine
render_scanline m =
    let v = m.video in
    let m1 = if bit v.lcdc 0 == 1 && not (m.is_cgb == 0) then render_bg m else m in
    let m2 =
      if bit v.lcdc 5 == 1 && leb v.wy v.ly && not (m.is_cgb == 0) then render_window m1 else m1 in
    if bit v.lcdc 1 == 1 && not (m.is_cgb == 0) then render_sprites m2 else m2

-- `cpu.intFlags |= mask`
abbrev pub raise : ℕ → Machine → Machine
raise mask m = record m { ints = record (m.ints) { int_flags = bit_or m.ints.int_flags mask } }

abbrev pub set_accum : ℕ → Machine → Machine
set_accum accum m = record m { screen = record (m.screen) { lcd_tick_accum = accum } }

-- `lyc != ly ? stat & ~4 : stat | 4`
unfoldable pub compare_lyc : Machine → ℕ → ℕ → ℕ
compare_lyc m ly stat = if m.video.lyc == ly then bit_or stat 4 else bit_and stat 0xffff_fffb

-- `(~s & 0x44) == 0`: the line matches, and the match may interrupt.
unfoldable pub raise_on_match : ℕ → Machine → Machine
raise_on_match s m = if bit s 2 == 1 && bit s 6 == 1 then raise 0xe2 m else m

-- `s >> k & 1`: the mode that is entered may interrupt.
unfoldable pub raise_on_mode : ℕ → ℕ → Machine → Machine
raise_on_mode k s m = if bit s k == 1 then raise 0xe2 m else m

unfoldable pub set_stat : ℕ → Machine → Machine
set_stat s m = record m { video = record (m.video) { stat = s } }

-- `(s & 0xfc) | mode`
unfoldable pub enter_mode : ℕ → ℕ → Machine → Machine
enter_mode mode s m = set_stat (u8 (bit_or (bit_and s 0xfc) mode)) m

-- Mode 1, once 456 ticks have passed.
unfoldable pub vblank_line_end : ℕ → Machine → Machine
vblank_line_end accum m0 =
    let m = set_accum (accum - 456) m0 in
    let s = compare_lyc m (u8 (m.video.ly + 1)) m.video.stat in
    let m1 = raise_on_match s (set_stat (u8 s) m) in
    if m1.video.ly == 0
    then (let m2 = enter_mode 2 m1.video.stat (raise_on_mode 5 s m1) in
        record m2 { video = record (m2.video) { ly = 0 } })
    else if m1.video.ly == 0x98
    then (let s2 = compare_lyc m1 0 s in
        raise_on_match s2
          (record m1 { video = record (m1.video) { window_line = 0; ly = 0; stat = u8 s2 } }))
    else record m1 { video = record (m1.video) { ly = u8 (m1.video.ly + 1) } }

-- Mode 3 with an H-blank transfer running: one block of 16 bytes after the line.
unfoldable pub hblank_transfer : Machine → Machine
hblank_transfer m =
    let ends = m.video.hdma_length % 2 ^ 7 == 0 in
    let m1 = if ends then record m { video = record (m.video) { hdma_active = 0 } } else m in
    let m2 = dma_copy16 write8 m1 in
    record m2 {
      video = record (m2.video) { hdma_length = u16 (m2.video.hdma_length + 2 ^ 16 - 1) };
    }

-- Mode 3, once 172 ticks have passed.
unfoldable pub draw_end : ℕ → Machine → Machine
draw_end accum m0 =
    let m = set_accum (accum - 172) m0 in
    let m1 = raise_on_mode 3 m.video.stat m in
    let m2 = render_scanline (set_stat (bit_and m1.video.stat 0xfc) m1) in
    if not (m2.video.hdma_active == 0) then hblank_transfer m2 else m2

-- Mode 0, once 204 ticks have passed.
unfoldable pub hblank_end : ℕ → Machine → Machine
hblank_end accum m0 =
    let stat = m0.video.stat in
    let m = record m0 {
      screen = record (m0.screen) { lcd_tick_accum = accum - 204 };
      video = record (m0.video) { ly = u8 (m0.video.ly + 1) };
    } in
    let s = compare_lyc m m.video.ly stat in
    let m1 = raise_on_match s m in
    if m1.video.ly == 0x90
    then (let m2 = raise 0xe1 (enter_mode 1 s (raise_on_mode 4 s m1)) in
        record m2 { screen = record (m2.screen) { frame_done = 1 } })
    else enter_mode 2 s (raise_on_mode 5 s m1)

unfoldable pub lcd_off : Machine → Machine
lcd_off m = record m {
  video = record (m.video) { stat = bit_and m.video.stat 0xfc; ly = 0; window_line = 0 };
  screen = record (m.screen) { lcd_mode = 0; lcd_tick_accum = 0 };
}

-- The number of ticks after which a mode ends.
unfoldable pub mode_length : ℕ → ℕ
mode_length mode =
    if mode == 1 then 456 else if mode == 2 then 80 else if mode == 3 then 172 else 204

unfoldable pub mode_end : ℕ → ℕ → Machine → Machine
mode_end mode accum m =
    if mode == 1
    then vblank_line_end accum m
    else if mode == 2
    then set_stat (bit_or m.video.stat 3) (set_accum (accum - 80) m)
    else if mode == 3
    then draw_end accum m
    else hblank_end accum m

-- The accumulator keeps what is over; where the source stores it before it compares, the value is
-- stored again if the mode goes on.
unfoldable pub lcd_step : ℕ → Machine → Machine
lcd_step ticks m =
    let accum = m.screen.lcd_tick_accum + ticks in
    let mode = m.video.stat % 4 in
    let m' = record m { screen = record (m.screen) { lcd_mode = mode } } in
    if bit m.video.lcdc 7 == 0
    then lcd_off m'
    else if ltb accum (mode_length mode)
    then set_accum accum m'
    else mode_end mode accum m'

unfoldable pub reset_screen : Screen → Screen
reset_screen s = record s {
  framebuffer = λ _. 0xff;
  dmg_tile_cache = λ _. 0;
  oam_mirror = λ _. 0;
  dmg_tile_map = λ _. 0;
}

-- All of `IoBlock` from `ly` on is cleared.
abbrev pub zero_video : Video
zero_video = record {
  ly = 0;
  lyc = 0;
  lcdc = 0;
  scy = 0;
  scx = 0;
  wy = 0;
  wx = 0;
  bgp = 0;
  obp0 = 0;
  obp1 = 0;
  window_line = 0;
  stat = 0;
  bcps = 0;
  ocps = 0;
  vbk = 0;
  hdma_active = 0;
  hdma_src = 0;
  hdma_dst = 0;
  hdma_length = 0;
  bg_palette = λ _. 0;
  obj_palette = λ _. 0;
}

unfoldable pub video_reset : Machine → Machine
unfolding reset_screen
video_reset m = record m { screen = reset_screen m.screen; video = zero_video }
