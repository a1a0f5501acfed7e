-- ===== src/Screen/Menu.antt =====
-- `DrawMainMenu` and `DrawMenuList` of carbon-pc/src/app/Renderer.cpp.
pub mod Selected
use Prim.Native.String.{String}
use open_carbon.Base.{
  ℕ, ◌+◌, ◌-◌, ◌*◌, ◌%◌, ◌^◌, List, [], ◌∷◌, ◌++◌, Bool, true, ◌==◌, ltb, leb, if◌then◌else◌,
  length,
}
use open_carbon.App.Definition.{GameDef, Entry}
use open_carbon.Screen.{
  Floats, Colour, grey, ℤ, pos, negsuc, lowered, Texture, named, numbered, size, sprite_shader,
  emulation_shader, big, Draw, sprite, print, flush, set_time, Look, full_screen, menu_bar,
  select_icon, unselected_text, white_text, white, scrolled,
}
use open_carbon.Screen.Hue.{next_hue, menu_rainbow}

-- The logo and the hint of the B button, if the definition has them.
abbrev pub logo : GameDef → Colour → List Draw
logo def color =
    if def.game_logo_enabled
    then sprite sprite_shader (named "GameLogo") (pos 30) (pos 30)
        (record { width = 36716; height = 19095 }) color
      ∷ []
    else []

abbrev pub button_hint : GameDef → Colour → List Draw
button_hint def color =
    if def.button_b_enabled
    then sprite sprite_shader (named "B_Button") (pos 30) (pos 660)
        (record { width = 10240; height = 7200 }) color
      ∷ []
    else []

abbrev pub menu_sprite : GameDef → ℕ → Colour → Draw
menu_sprite def x color =
    sprite sprite_shader (named "MenuSprite") (pos x) (pos 0)
      (size def.menu_sprite_width def.menu_sprite_height) color

abbrev pub written : ℕ → ℤ → String → ℕ → List Draw
written x y text color = print big x y text color ∷ flush big ∷ []

abbrev pub item_x : Bool → ℕ
item_x selected = if selected then 140 else 90

abbrev pub item_color : Bool → ℕ
item_color selected = if selected then white_text else unselected_text

-- `menuSelection == static_cast<uint8_t>(e.id)`
abbrev pub is_selected : ℕ → Entry → Bool
is_selected selection e = selection == e.id % 2 ^ 8

-- The line that the loop ends at.
unfoldable pub last_row : ℤ → List Entry → ℤ
last_row y [] = y
last_row y (e ∷ rest) = last_row (lowered 40 y) rest

module _ (fl : Floats) where
  -- `for (float& c : menuFadeInRGB) c += 0.015f`
  abbrev pub faded_in : Look → Look
  faded_in l =
      let step = fl.ratio 15 1000 in
      record l {
        fade_in_r = fl.plus l.fade_in_r step;
        fade_in_g = fl.plus l.fade_in_g step;
        fade_in_b = fl.plus l.fade_in_b step;
      }

  abbrev pub fade_in_color : Look → Colour
  fade_in_color l = record { r = l.fade_in_r; g = l.fade_in_g; b = l.fade_in_b; a = fl.ratio 1 1 }

  -- The three states of the animation. A sprite that would stand left of 0 is set to 320 with the
  -- others left of 321.
  unfoldable pub menu_animation : Look → Look × Colour
  menu_animation l =
      let one = fl.ratio 1 1 in
      let f = faded_in l in
      let done = record f { fade_in_r = one; fade_in_g = one; fade_in_b = one; anim_state = 2 } in
      let brighter = if fl.at_most one f.fade_in_r then done else f in
      let slid =
        if ltb (f.sprite_x - 36) 321
        then record f { sprite_x = 320; anim_state = 1 }
        else record f { sprite_x = f.sprite_x - 36 } in
      if l.anim_state == 2
      then (
        record l { scroll = scrolled fl l.scroll; hint_fade = white fl; hint_color = white fl },
        white fl,
      )
      else if l.anim_state == 1
      then (brighter, fade_in_color brighter)
      else if l.anim_state == 0
      then (slid, fade_in_color slid)
      else (l, white fl)

  unfoldable pub draw_main_menu : GameDef → Look → Look × List Draw
  unfolding menu_animation
  draw_main_menu def l =
      let (m, color) = menu_animation (record l { menu_fade = white fl }) in
      let time = fl.plus m.shader_time (fl.ratio 2 100) in
      (
        record m { shader_time = time },
        (set_time time
              ∷ sprite sprite_shader (named "MenuBackground") (pos 0) (pos 0) full_screen color
              ∷ sprite emulation_shader (named "MenuBackground") (pos 0) (pos 0) full_screen color
              ∷ menu_sprite def m.sprite_x (white fl)
              ∷ [])
            ++ logo def color
            ++ button_hint def color
            ++ (sprite sprite_shader (named "DescriptionBar") (negsuc 19) (pos 620)
                  (record { width = 73231; height = 5360 }) color
                ∷ []),
      )

  -- `drawSelection`
  unfoldable pub draw_selection : ℕ → List Draw
  draw_selection index =
      sprite sprite_shader (named "MenuBar") (pos 80) (pos (index * 40 + 240)) menu_bar (white fl)
      ∷ sprite sprite_shader (named "SelectIcon") (pos 26) (pos (index * 40 + 220)) select_icon
          (white fl)
      ∷ []

  -- One round of the loop over the titles, at its line.
  unfoldable pub title_row : ℕ → ℤ → Entry → List Draw
  unfolding draw_selection
  title_row selection y e =
      let selected = is_selected selection e in
      written (item_x selected) y e.name (item_color selected)
      ++ (if selected
          then written 90 (pos 68) e.description white_text ++ draw_selection selection
          else [])

  unfoldable pub title_rows : ℕ → ℤ → List Entry → List Draw
  unfolding title_row
  title_rows selection y [] = []
  title_rows selection y (e ∷ rest) =
      title_row selection (lowered 40 y) e ++ title_rows selection (lowered 40 y) rest

  -- The entries EXTRAS and CREDITS.
  unfoldable pub extra_row : Bool → ℕ → ℤ → String → String → List Draw
  unfolding draw_selection
  extra_row selected index y name description =
      written (item_x selected) y name (item_color selected)
      ++ (if selected
          then draw_selection index ++ written 90 (pos 68) description white_text
          else [])

  unfoldable pub preview : ℕ → ℕ → List Draw
  preview selection titles =
      if ltb selection titles
      then sprite sprite_shader (numbered "MenuPreview" selection) (pos 62) (pos 404) (size 200 180)
          (white fl)
        ∷ sprite sprite_shader (named "GameBorder") (pos 54) (pos 394) (size 218 200) (white fl)
        ∷ []
      else []

  -- `menuAnimState` is never negative. The hue goes on in any case.
  unfoldable pub draw_menu_list : GameDef → ℕ → Look → Look × List Draw
  unfolding next_hue menu_rainbow title_rows last_row extra_row preview
  draw_menu_list def selection l =
      let count = length def.titles in
      let y = last_row (pos 500) def.titles in
      (
        record l { hue = next_hue 2 l.hue; rainbow = menu_rainbow l.hue },
        (if l.anim_state == 0
            then []
            else preview selection count
              ++ title_rows selection (pos 500) def.titles
              ++ extra_row (selection == count) count (lowered 40 y) "EXTRAS"
                  "Explore bonus content"
              ++ extra_row (selection == count + 1) (count + 1) (lowered 80 y) "CREDITS"
                  "View the credits!"),
      )
