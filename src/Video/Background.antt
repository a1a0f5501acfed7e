-- ===== src/Video/Background.antt =====
-- `CgbRenderBg` and `CgbRenderWindow` of carbon-pc/src/gb/Video.cpp.
-- Where the bits that `|` joins are disjoint, it is written as a sum.
use open_carbon.Base.{
  ℕ, ◌+◌, ◌-◌, ◌*◌, ◌/◌, ◌%◌, ◌^◌, not, ◌&&◌, ltb, leb, ◌==◌, if◌then◌else◌, bit_xor, bit, bits,
  update, for_range,
}
use open_carbon.State.{Machine, Screen, Video}
use open_carbon.Video.Pixel.{put_pixel, pixel_offset}

-- LCDC bit 4 selects how a tile number is read.
unfoldable pub tile_base : Video → ℕ → ℕ
tile_base v tile = if bit v.lcdc 4 == 1 then tile * 2 ^ 4 else bit_xor tile 0x80 * 0x10 + 0x800

-- The two bits of a pixel, of the bytes at `index` and `next`, below the palette number.
unfoldable pub pixel_colour : Screen → ℕ → ℕ → ℕ → ℕ → ℕ
pixel_colour s attr index next shift =
    attr % 8 * 4 + bit (s.vram index) shift + bit (s.vram next) shift * 2

-- What is stored for pixel `x` of the line.
unfoldable pub store_pixel : Video → ℕ → ℕ → ℕ → Screen → Screen
store_pixel v x attr colour s = record s {
  line_bg_priority = update s.line_bg_priority x (attr / 2 ^ 7);
  line_color_index = update s.line_color_index x (colour + 0x20);
  framebuffer =
      put_pixel s.framebuffer (pixel_offset v x) (v.bg_palette (colour * 2))
        (v.bg_palette (colour * 2 + 1));
}

unfoldable pub bg_pixel : Video → ℕ → Screen → Screen
unfolding tile_base pixel_colour store_pixel
bg_pixel v x s =
    let map_base : ℕ = if bit v.lcdc 3 == 1 then 0x1c00 else 0x1800 in
    let y = v.ly + v.scy in
    let row2 = y % 8 * 2 in
    let map_row = bits y 3 5 * 2 ^ 5 in
    let sx = v.scx + x in
    let map_index = map_base + map_row + bits sx 3 5 in
    let attr = s.vram (map_index + 0x2000) in
    let px = if bit attr 5 == 1 then bit_xor (sx % 8) 7 else sx % 8 in
    let r2 = if bit attr 6 == 1 then bit_xor row2 0xe else row2 in
    let tile_addr = tile_base v (s.vram map_index) + bit attr 3 * 2 ^ 13 + r2 in
    store_pixel v x attr (pixel_colour s attr tile_addr (tile_addr + 1) (bit_xor px 7)) s

unfoldable pub render_bg : Machine → Machine
render_bg m = record m { screen = for_range 0xa0 0 (bg_pixel m.video) m.screen }

-- `line` is the window's row counter before the call steps it. Pixels left of the window are
-- skipped; `wx - 7` is where it begins.
unfoldable pub window_pixel : ℕ → Video → ℕ → ℕ → Screen → Screen
unfolding tile_base pixel_colour store_pixel
window_pixel is_cgb v line x s =
    let map_base : ℕ = if bit v.lcdc 6 == 1 then 0x1c00 else 0x1800 in
    let col = x + 7 - v.wx in
    let map_index = (map_base + line / 8 * 8 * 4 + col / 2 ^ 3) % 2 ^ 16 in
    let attr = s.vram (map_index + 0x2000) in
    let cgb = not (is_cgb == 0) in
    let px = if cgb && bit attr 5 == 1 then bit_xor (col % 8) 7 else col % 8 in
    let row = if cgb && bit attr 6 == 1 then bit_xor (line % 8) 7 else line % 8 in
    let bank = if cgb then bit attr 3 * 2 ^ 13 else 0 in
    let index = tile_base v (s.vram map_index) + bank + row * 2 in
    if ltb (x + 7) v.wx
    then s
    else store_pixel v x attr (pixel_colour s attr index (index + 1) (7 - px)) s

unfoldable pub render_window : Machine → Machine
render_window m =
    let v = m.video in
    if ltb v.wx 0xa7 && leb v.wy v.ly
    then record m {
      video = record v { window_line = (v.window_line + 1) % 2 ^ 8 };
      screen = for_range 0xa0 0 (window_pixel m.is_cgb v v.window_line) m.screen;
    }
    else m
