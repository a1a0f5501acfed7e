-- ===== src/Screen/Artwork.antt =====
-- carbon-pc/src/app/Artwork.cpp: `Select` and `Draw`. An `int` is its bit pattern; the frame counter is
-- taken to stay below 2 ^ 31. The textures' sizes and the divisions are parameters.
pub mod Faded
use open_carbon.Base.{ℕ, ◌+◌, ◌-◌, ◌*◌, ◌/◌, ◌^◌, List, [], ◌∷◌, ◌==◌, leb, ltb, if◌then◌else◌, u32}
use open_carbon.App.Input.{Sticks}
use open_carbon.App.State.{Scene}
use open_carbon.Screen.{Floats, Colour, white, each}

-- `divided a b` is the quotient of two floats, `scaled a w h` the float nearest to `a / w * h` in
-- doubles, where `w` and `h` are `int`s; `texture` has the width and the height of a picture.
pub record Pictures : Type 0 where
  pub divided : ℕ → ℕ → ℕ
  pub scaled : ℕ → ℕ → ℕ → ℕ
  pub texture : ℕ → ℕ × ℕ

-- The variables of the file, but for the three that the input handler changes.
pub record Artwork : Type 0 where
  pub pos_x : ℕ
  pub pos_y : ℕ
  pub width : ℕ
  pub height : ℕ
  pub scroll : ℕ
  pub ui_fade : Colour
  pub ui_color : Colour

pub data Call : Type 0 where
  clear_screen : Call
  draw_picture : ℕ → ℕ → ℕ → ℕ → ℕ → Colour → Call
  user_interface : Colour → Call
  finish : Call
  swap_buffers : Call

-- `static_cast<int>(byte) / d`, which cuts towards zero.
unfoldable pub stick_step : ℕ → ℕ → ℕ
stick_step d byte = if ltb byte 128 then byte / d else u32 (2 ^ 32 - (256 - byte) / d)

module _ (fl : Floats) where
  unfoldable pub next_scroll : ℕ → ℕ
  next_scroll old =
      let s = fl.plus old (fl.ratio 2 10) in
      if fl.at_most s (fl.ratio 640 1) then s else fl.ratio 0 1

  -- The width that the zoom leaves.
  unfoldable pub zoomed : ℕ → ℕ → ℕ
  unfolding stick_step
  zoomed byte width =
      let w = fl.plus width (fl.from_int (stick_step 8 byte)) in
      let least = if fl.less w (fl.ratio 600 1) then fl.ratio 600 1 else w in
      if fl.less (fl.ratio 2200 1) least then fl.ratio 2200 1 else least

  unfoldable pub darker : Colour → Colour
  darker c =
      let down = λ (x : ℕ). fl.minus x (fl.ratio 2 10) in
      each fl (λ x. if fl.less (down x) (fl.ratio 0 1) then fl.ratio 0 1 else down x) c

  unfoldable pub brighter : Colour → Colour
  brighter c =
      let up = λ (x : ℕ). fl.plus x (fl.ratio 1 10) in
      each fl (λ x. if fl.less (fl.ratio 1 1) (up x) then fl.ratio 1 1 else up x) c

  abbrev pub coloured : Colour → Artwork → Artwork
  coloured c a = record a { ui_fade = c; ui_color = c }

  -- The fade of the user interface's picture.
  unfoldable pub fade_ui : Scene → Artwork → Artwork
  unfolding darker brighter
  fade_ui scene a =
      if scene.art_ui_visible == 0
      then (if ltb 4 scene.art_ui_timer then coloured (darker a.ui_fade) a else a)
      else if ltb scene.art_ui_timer 10
      then coloured (brighter a.ui_fade) a
      else a

module _ (fl : Floats) (pictures : Pictures) where
  unfoldable pub select_picture : Scene → Artwork → Artwork
  select_picture scene a =
      let size = pictures.texture scene.art_index in
      let w = fl.from_int size.0 in
      let ratio = pictures.divided (fl.ratio 1280 1) w in
      let width = fl.times ratio w in
      let height = fl.times ratio (fl.from_int size.1) in
      let half = fl.ratio 1 2 in
      record a {
        width = width;
        height = height;
        pos_x = fl.to_int (fl.minus (fl.ratio 640 1) (fl.times width half));
        pos_y = fl.to_int (fl.minus (fl.ratio 360 1) (fl.times height half));
      }

  -- The zoom and the pan.
  unfoldable pub moved : Sticks → ℕ × ℕ → Artwork → Artwork
  unfolding zoomed stick_step next_scroll
  moved sticks size a =
      let width = zoomed fl sticks.right_x a.width in
      record a {
        scroll = next_scroll fl a.scroll;
        width = width;
        pos_x = u32 (a.pos_x + stick_step 12 sticks.left_x);
        pos_y = u32 (a.pos_y + u32 (2 ^ 32 - stick_step 12 sticks.left_y));
        height = pictures.scaled width size.0 size.1;
      }

  unfoldable pub draw_artwork : Sticks → Scene → Artwork → (Scene × Artwork) × List Call
  unfolding fade_ui moved
  draw_artwork sticks scene a =
      let m = moved sticks (pictures.texture scene.art_index) a in
      let f = fade_ui fl scene m in
      (
        (record scene { art_ui_timer = scene.art_ui_timer + 1 }, f),
        clear_screen
            ∷ draw_picture scene.art_index (fl.from_int m.pos_x) (fl.from_int m.pos_y) m.width
                m.height (white fl)
            ∷ user_interface f.ui_color
            ∷ finish
            ∷ swap_buffers
            ∷ [],
      )
