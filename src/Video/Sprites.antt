-- ===== src/Video/Sprites.antt =====
-- `CgbRenderSprites` of carbon-pc/src/gb/Video.cpp.
use open_carbon.Base.{
  ℕ, zero, suc, ◌+◌, ◌-◌, ◌*◌, ◌/◌, ◌%◌, ◌^◌, Bool, not, ◌&&◌, ◌||◌, true, false, List, [], ◌∷◌,
  Option, none, some, Bytes, ltb, leb, ◌==◌, if◌then◌else◌, u8, u32, bit, bits, update, for_range,
}
use open_carbon.State.{Machine, Screen, Video}
use open_carbon.Video.Pixel.{put_pixel, pixel_offset}

pub record Entry : Type 0 where
  pub y : ℕ
  pub x : ℕ
  pub tile : ℕ
  pub attr : ℕ

-- The two arrays of a line: `none` stands for the colour -1, a pixel no sprite has taken.
pub record Line : Type 0 where
  pub colour : ℕ → Option ℕ
  pub priority : Bytes

abbrev pub height : Video → ℕ
height v = if bit v.lcdc 2 == 1 then 16 else 8

unfoldable pub oam_entry : Screen → ℕ → Entry
oam_entry s i = record {
  y = s.oam (i * 4);
  x = s.oam (i * 4 + 1);
  tile = s.oam (i * 4 + 2);
  attr = s.oam (i * 4 + 3);
}

-- `top <= ly && ly < top + height`, where `top` is `y - 16`
abbrev pub on_line : Video → Entry → Bool
on_line v e = leb e.y (v.ly + 16) && ltb (v.ly + 16) (e.y + height v)

-- The entries from index `i` on that meet the line, until `count` has reached 10.
unfoldable pub find_sprites : Video → Screen → ℕ → ℕ → ℕ → List Entry
unfolding oam_entry
find_sprites v s zero i count = []
find_sprites v s (suc left) i count =
    let e = oam_entry s i in
    let hit = on_line v e in
    let count' = if hit then count + 1 else count in
    let rest = find_sprites v s left (i + 1) count' in
    let more = if leb 10 count' then [] else rest in if hit then e ∷ more else more

-- The row of the sprite that the line shows, as a `uint32_t`.
unfoldable pub sprite_row : Video → Entry → ℕ
sprite_row v e =
    let top = u8 (e.y + 2 ^ 8 - 0x10) in
    if bit e.attr 6 == 1
    then u32 (height v + top + (2 ^ 32 - 1 - v.ly))
    else u32 (v.ly + 2 ^ 32 - top)

-- Where the row's two bytes lie in video memory.
unfoldable pub sprite_index : Video → Entry → ℕ
unfolding sprite_row
sprite_index v e =
    let row = sprite_row v e in
    let tall = bit v.lcdc 2 == 1 in
    let tile_num =
      if tall then (if bits row 3 5 == 0 then e.tile / 2 * 2 else e.tile / 2 * 2 + 1) else e.tile in
    let row' = if tall then row % 8 else row in
    let tile_addr = tile_num * 2 ^ 4 + (if bit e.attr 3 == 1 then 0x2000 else 0) in
    row' % 2 ^ 8 * 2 + tile_addr

-- `colour[x] != -1`
abbrev pub is_taken : Option ℕ → Bool
is_taken none = false
is_taken (some c) = true

-- Pixel `n` of the sprite. A pixel that a sprite before has taken is left alone.
unfoldable pub sprite_pixel : Entry → ℕ → ℕ → ℕ → Line → Line
sprite_pixel e lo hi n l =
    let x = u8 (e.x + 2 ^ 8 - 8 + n) in
    let shift = if bit e.attr 5 == 1 then n else 7 - n in
    let c = bit lo shift + bit hi shift * 2 in
    if leb 0xa0 x || is_taken (l.colour x) then l else record {
      colour = λ j. if x == j && not (c == 0) then some (c + e.attr % 8 * 4) else l.colour j;
      priority = update l.priority x (e.attr / 2 ^ 7);
    }

unfoldable pub draw_sprite : Video → Screen → Entry → Line → Line
unfolding sprite_index sprite_pixel
draw_sprite v s e l =
    let index = sprite_index v e in
    for_range 8 0 (sprite_pixel e (s.vram index) (s.vram (index / 2 * 2 + 1))) l

-- The pixel is in front of the background.
unfoldable pub in_front : Line → Screen → ℕ → Bool
in_front l s x = (l.priority x == 0 && s.line_bg_priority x == 0) || s.line_color_index x % 4 == 0

unfoldable pub composite_pixel : Video → Line → ℕ → Screen → Screen
composite_pixel v l x s = elim (l.colour x) [
  | none ↦ s
  | some c ↦
      if in_front l s x
      then record s {
        framebuffer =
            put_pixel s.framebuffer (pixel_offset v x) (v.obj_palette (c % 2 ^ 5 * 2))
              (v.obj_palette (c % 2 ^ 5 * 2 + 1));
      }
      else s
]

-- The whole line is composited after every sprite.
unfoldable pub composite : Video → Line → Screen → Screen
composite v l s = for_range 0xa0 0 (composite_pixel v l) s

unfoldable pub draw_sprites : Video → List Entry → Line → Screen → Screen
draw_sprites v [] l s = s
draw_sprites v (e ∷ es) l s =
    let l' = draw_sprite v s e l in draw_sprites v es l' (composite v l' s)

abbrev pub empty_line : Line
empty_line = record { colour = λ _. none; priority = λ _. 0 }

-- Only the branch for colour games draws; the other is not in the program.
unfoldable pub render_sprites : Machine → Machine
render_sprites m =
    let found = find_sprites m.video m.screen 40 0 0 in
    if m.is_cgb == 0
    then m
    else record m { screen = draw_sprites m.video found empty_line m.screen }
