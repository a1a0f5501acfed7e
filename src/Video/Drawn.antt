-- ===== src/Video/Drawn.antt =====
-- What drawing a line, in carbon-pc/src/gb/Video.cpp, changes: pixels of that line, and the arrays
-- that the drawing itself uses.
use open_carbon.Base.{
  ℕ, ◌+◌, ◌*◌, ◌≤◌, ◌<◌, ◌≡◌, ◌⊎◌, refl, ap, ◌∙◌, arith, List, [], ◌∷◌, Bytes, for_range,
  for_range_keeps_below, Option-cases, ltb, leb, ◌==◌, ◌&&◌, Bool-cases, inl, inr,
}
use open_carbon.State.{Machine, Screen, Video}
use open_carbon.Video.Pixel.{put_pixel}
use open_carbon.Video.Background.{bg_pixel, render_bg, window_pixel, render_window}
use open_carbon.Video.Sprites.{
  Entry, Line, empty_line, in_front, composite_pixel, composite, draw_sprite, draw_sprites,
  render_sprites,
}

-- The 160 pixels of four bytes of line `ly`.
abbrev Outside : ℕ → ℕ → Type 0
Outside ly j = (j < ly * 0x280) ⊎ (ly * 0x280 + 0x280 ≤ j)

-- From `s` to `s'` only line `ly` of the framebuffer and the two line arrays changed.
pub record Drawn (ly : ℕ) (s s' : Screen) : Type 0 where
  pub pixels : (j : ℕ) → Outside ly j → s'.framebuffer j ≡ s.framebuffer j
  pub vram : s'.vram ≡ s.vram
  pub oam : s'.oam ≡ s.oam
  pub hram : s'.hram ≡ s.hram
  pub oam_mirror : s'.oam_mirror ≡ s.oam_mirror
  pub dmg_tile_cache : s'.dmg_tile_cache ≡ s.dmg_tile_cache
  pub dmg_tile_map : s'.dmg_tile_map ≡ s.dmg_tile_map
  pub dmg_palette_rgb : s'.dmg_palette_rgb ≡ s.dmg_palette_rgb
  pub lcd_tick_accum : s'.lcd_tick_accum ≡ s.lcd_tick_accum
  pub lcd_mode : s'.lcd_mode ≡ s.lcd_mode
  pub frame_done : s'.frame_done ≡ s.frame_done

pub Drawn-refl : (ly : ℕ) (s : Screen) → Drawn ly s s
Drawn-refl ly s = record {
  pixels = λ j h. refl;
  vram = refl;
  oam = refl;
  hram = refl;
  oam_mirror = refl;
  dmg_tile_cache = refl;
  dmg_tile_map = refl;
  dmg_palette_rgb = refl;
  lcd_tick_accum = refl;
  lcd_mode = refl;
  frame_done = refl;
}

pub Drawn-trans : (ly : ℕ) (s s' s'' : Screen) → Drawn ly s s' → Drawn ly s' s'' → Drawn ly s s''
Drawn-trans ly s s' s'' p q = record {
  pixels = λ j h. q.pixels j h ∙ p.pixels j h;
  vram = q.vram ∙ p.vram;
  oam = q.oam ∙ p.oam;
  hram = q.hram ∙ p.hram;
  oam_mirror = q.oam_mirror ∙ p.oam_mirror;
  dmg_tile_cache = q.dmg_tile_cache ∙ p.dmg_tile_cache;
  dmg_tile_map = q.dmg_tile_map ∙ p.dmg_tile_map;
  dmg_palette_rgb = q.dmg_palette_rgb ∙ p.dmg_palette_rgb;
  lcd_tick_accum = q.lcd_tick_accum ∙ p.lcd_tick_accum;
  lcd_mode = q.lcd_mode ∙ p.lcd_mode;
  frame_done = q.frame_done ∙ p.frame_done;
}

-- A pixel of the line lies within it.
put_pixel-Outside :
    (f : Bytes) (ly x j lo hi : ℕ)
    → x < 0xa0
    → Outside ly j
    → put_pixel f (ly * 0x280 + x * 4) lo hi j ≡ f j
unfolding put_pixel
put_pixel-Outside f ly x j lo hi hx h = ground arith

-- The framebuffer and the line arrays are all that differs, and the framebuffer at one pixel.
Drawn-pixel :
    (ly x lo hi : ℕ) (colours priorities : Bytes) (s : Screen)
    → x < 0xa0
    → Drawn ly s (record s {
      line_bg_priority = priorities;
      line_color_index = colours;
      framebuffer = put_pixel s.framebuffer (ly * 0x280 + x * 4) lo hi;
    })
Drawn-pixel ly x lo hi colours priorities s hx = record {
  pixels = λ j h. put_pixel-Outside s.framebuffer ly x j lo hi hx h;
  vram = refl;
  oam = refl;
  hram = refl;
  oam_mirror = refl;
  dmg_tile_cache = refl;
  dmg_tile_map = refl;
  dmg_palette_rgb = refl;
  lcd_tick_accum = refl;
  lcd_mode = refl;
  frame_done = refl;
}

-- A loop over the line's pixels.
line-Drawn :
    (ly : ℕ) (body : ℕ → Screen → Screen) (s : Screen)
    → ((x : ℕ) (t : Screen) → x < 0xa0 → Drawn ly t (body x t))
    → Drawn ly s (for_range 0xa0 0 body s)
line-Drawn ly body s each =
    for_range_keeps_below (Drawn ly s) 0xa0 0 body s
      (λ x t p q h. Drawn-trans ly s t _ h (each x t (omega arith))) (Drawn-refl ly s)

bg_pixel-Drawn : (v : Video) (x : ℕ) (s : Screen) → x < 0xa0 → Drawn v.ly s (bg_pixel v x s)
unfolding bg_pixel
bg_pixel-Drawn v x s hx = Drawn-pixel v.ly x _ _ _ _ s hx

window_pixel-Drawn :
    (cgb : ℕ) (v : Video) (row x : ℕ) (s : Screen)
    → x < 0xa0
    → Drawn v.ly s (window_pixel cgb v row x s)
unfolding window_pixel
window_pixel-Drawn cgb v row x s hx = elim (Bool-cases (ltb (x + 7) v.wx)) [
  | inl left ↦ rw left (Drawn-refl v.ly s)
  | inr inside ↦ rw inside (Drawn-pixel v.ly x _ _ _ _ s hx)
]

composite_pixel-Drawn :
    (v : Video) (l : Line) (x : ℕ) (s : Screen) → x < 0xa0 → Drawn v.ly s (composite_pixel v l x s)
unfolding composite_pixel
composite_pixel-Drawn v l x s hx = elim (Option-cases (l.colour x)) [
  | inl free ↦ rw (free, composite_pixel) (Drawn-refl v.ly s)
  | inr (c, taken) ↦
      rw (taken, composite_pixel)
        (elim (Bool-cases (in_front l s x)) [
          | inl front ↦ rw front (Drawn-pixel v.ly x _ _ s.line_color_index s.line_bg_priority s hx)
          | inr back ↦ rw back (Drawn-refl v.ly s)
        ])
]

draw_sprites-Drawn :
    (v : Video) (es : List Entry) (l : Line) (s : Screen) → Drawn v.ly s (draw_sprites v es l s)
unfolding draw_sprites composite
draw_sprites-Drawn v [] l s = Drawn-refl v.ly s
draw_sprites-Drawn v (e ∷ es) l s =
    let l' = draw_sprite v s e l in
    Drawn-trans v.ly s (composite v l' s) _
      (line-Drawn v.ly (composite_pixel v l') s (λ x t hx. composite_pixel-Drawn v l' x t hx))
      (draw_sprites-Drawn v es l' (composite v l' s))

-- A machine from which a line was drawn: the window's row counter and line `ly` of the image are all
-- that the game or the screen can see of it.
pub record DrawnLine (m m' : Machine) : Type 0 where
  pub screen : Drawn m.video.ly m.screen m'.screen
  pub rest : m' ≡ record m {
    screen = m'.screen;
    video = record (m.video) { window_line = m'.video.window_line };
  }

pub DrawnLine-refl : (m : Machine) → DrawnLine m m
DrawnLine-refl m = record { screen = Drawn-refl m.video.ly m.screen; rest = refl }

DrawnLine-screen :
    (m : Machine) (s : Screen) → Drawn m.video.ly m.screen s → DrawnLine m (record m { screen = s })
DrawnLine-screen m s d = record { screen = d; rest = refl }

pub DrawnLine-trans : (m m' m'' : Machine) → DrawnLine m m' → DrawnLine m' m'' → DrawnLine m m''
DrawnLine-trans m m' m'' p q = record {
  screen =
      Drawn-trans m.video.ly m.screen m'.screen m''.screen p.screen
        (rw (ap (λ (n : Machine). n.video.ly) p.rest) at q.screen);
  rest = ground (arith, p.rest, q.rest);
}

pub render_bg-DrawnLine : (m : Machine) → DrawnLine m (render_bg m)
unfolding render_bg
render_bg-DrawnLine m =
    DrawnLine-screen m _
      (line-Drawn m.video.ly (bg_pixel m.video) m.screen (bg_pixel-Drawn m.video))

pub render_window-DrawnLine : (m : Machine) → DrawnLine m (render_window m)
unfolding render_window
render_window-DrawnLine m = elim (Bool-cases (ltb m.video.wx 0xa7 && leb m.video.wy m.video.ly)) [
  | inl shown ↦ rw shown (record {
    screen =
        line-Drawn m.video.ly (window_pixel m.is_cgb m.video m.video.window_line) m.screen
          (window_pixel-Drawn m.is_cgb m.video m.video.window_line);
    rest = refl;
  })
  | inr hidden ↦ rw hidden (DrawnLine-refl m)
]

pub render_sprites-DrawnLine : (m : Machine) → DrawnLine m (render_sprites m)
unfolding render_sprites
render_sprites-DrawnLine m = elim (Bool-cases (m.is_cgb == 0)) [
  | inl mono ↦ rw mono (DrawnLine-refl m)
  | inr colour ↦ rw colour (DrawnLine-screen m _ (draw_sprites-Drawn m.video _ empty_line m.screen))
]
