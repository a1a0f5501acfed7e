-- ===== src/Screen.antt =====
-- What the screens of carbon-pc/src/app/Renderer.cpp are drawn of: a list of draw calls, and the
-- globals of carbon-pc/src/app/Globals.h that the drawing changes. A `float` is its bit pattern; the
-- processor's arithmetic on it is a parameter.
pub mod Hue
pub mod Menu
pub mod Launch
pub mod Pause
pub mod Present
pub mod Glyphs
pub mod Tga
pub mod Artwork
use Prim.Native.String.{String}
use open_carbon.Base.{ℕ, ◌+◌, ◌-◌, ◌*◌, List, Bool, true, false, ltb, if◌then◌else◌}

-- `ratio a b` is the float nearest to `a / b`, `to_int` the bit pattern of the `int` a float is cut
-- to, and `from_int` the float of such a pattern.
pub record Floats : Type 0 where
  pub plus : ℕ → ℕ → ℕ
  pub minus : ℕ → ℕ → ℕ
  pub times : ℕ → ℕ → ℕ
  pub negated : ℕ → ℕ
  pub less : ℕ → ℕ → Bool
  pub at_most : ℕ → ℕ → Bool
  pub ratio : ℕ → ℕ → ℕ
  pub to_int : ℕ → ℕ
  pub from_int : ℕ → ℕ

-- `Vec4` as a colour.
pub record Colour : Type 0 where
  pub r : ℕ
  pub g : ℕ
  pub b : ℕ
  pub a : ℕ

abbrev pub grey : ℕ → ℕ → Colour
grey level alpha = record { r = level; g = level; b = level; a = alpha }

-- A coordinate: `negsuc n` stands for `- n - 1`.
pub data ℤ : Type 0 where
  pos : ℕ → ℤ
  negsuc : ℕ → ℤ

-- `n - m`, and a coordinate `m` further down.
abbrev pub sub : ℕ → ℕ → ℤ
sub n m = if ltb n m then negsuc (m - n - 1) else pos (n - m)

unfoldable pub lowered : ℕ → ℤ → ℤ
lowered m (pos n) = sub n m
lowered m (negsuc n) = negsuc (n + m)

-- A texture by its name, with `std::to_string` of a number behind it.
pub data Texture : Type 0 where
  named : String → Texture
  numbered : String → ℕ → Texture

-- A size, in hundredths of a pixel.
pub record Size : Type 0 where
  pub width : ℕ
  pub height : ℕ

abbrev pub size : ℕ → ℕ → Size
size w h = record { width = w * 100; height = h * 100 }

-- The sprite renderers by their shaders, and the two fonts.
pub data Shader : Type 0 where
  sprite_shader : Shader
  lcd_shader : Shader
  emulation_shader : Shader

pub data Font : Type 0 where
  big : Font
  small : Font

-- `DrawSprite`, `Print`, `Flush`, the upload of the emulator's picture, which is filtered if told, and
-- the time of the "emulation" shader.
pub data Draw : Type 0 where
  sprite : Shader → Texture → ℤ → ℤ → Size → Colour → Draw
  print : Font → ℕ → ℤ → String → ℕ → Draw
  flush : Font → Draw
  upload : Texture → ℕ → ℕ → Bool → Draw
  set_time : ℕ → Draw

-- The globals and the fields of `Renderer` that the drawing changes.
pub record Look : Type 0 where
  pub anim_state : ℕ
  pub sprite_x : ℕ
  pub menu_fade : Colour
  pub fade_in_r : ℕ
  pub fade_in_g : ℕ
  pub fade_in_b : ℕ
  pub shader_time : ℕ
  pub scroll : ℕ
  pub hint_fade : Colour
  pub hint_color : Colour
  pub pause_fade : Colour
  pub slide_x : ℕ
  pub hue : ℕ
  pub rainbow : ℕ
  pub transition_active : Bool

-- The sizes that several screens share.
abbrev pub full_screen : Size
full_screen = size 1280 720

abbrev pub menu_bar : Size
menu_bar = record { width = 29815; height = 2747 }

abbrev pub select_icon : Size
select_icon = record { width = 5963; height = 6298 }

abbrev pub unselected_text : ℕ
unselected_text = 0xf9f9bcff

abbrev pub white_text : ℕ
white_text = 0xffffffff

module _ (fl : Floats) where
  abbrev pub white : Colour
  white = let one = fl.ratio 1 1 in grey one one

  abbrev pub black : ℕ → Colour
  black alpha = grey (fl.ratio 0 1) alpha

  abbrev pub each : (ℕ → ℕ) → Colour → Colour
  each change c = record { r = change c.r; g = change c.g; b = change c.b; a = change c.a }

  -- The menu's background scrolls, unseen.
  abbrev pub scrolled : ℕ → ℕ
  scrolled old =
      let s = fl.plus old (fl.ratio 6 10) in
      if fl.at_most s (fl.ratio 640 1) then s else fl.ratio 0 1
