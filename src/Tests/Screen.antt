-- ===== src/Tests/Screen.antt =====
-- The theorems on the game definition and the screens at a definition of two titles.
use mathlib.Core.Option
use text.Mathlib.Text.{◌==◌ as same_text}
use open_carbon.Base.{
  ℕ, zero, suc, ◌+◌, ◌-◌, ◌*◌, ◌/◌, ◌≤◌, ◌<◌, ◌≡◌, refl, arith, List, [], ◌∷◌, ◌++◌, Option, none,
  some, true, false, length, lt→ltb, ◌==◌, ltb, leb, if◌then◌else◌, All,
}
use open_carbon.App.Definition.{Xml, GameDef, load_definition, title_limit, read_entry}
use open_carbon.App.Definition.Titles.{nth_game, nth_title, load_definition-titles}
use open_carbon.Screen.{Floats, Look, Colour, grey, pos, lowered}
use open_carbon.Screen.Tga.{read_tga}
use open_carbon.Screen.Tga.Filled.{IsFilled, read_tga-IsFilled}
use open_carbon.Screen.Glyphs.{FontFile, print_text, first_line}
use open_carbon.Screen.Glyphs.Lines.{
  line_quads, below, first_of, others_of, height_after, print_text-lines,
}
use open_carbon.Screen.Menu.{draw_menu_list}
use open_carbon.Screen.Menu.Selected.{collect, indented, bar, draw_menu_list-marks_one}
use open_carbon.Screen.Launch.Ends.{EndsWithin, draw_launch_transition-EndsWithin, red_after}
use open_carbon.Screen.Pause.{PauseView, draw_pause_menu}
use open_carbon.Screen.Pause.Slots.{Shown, draw_pause_menu-Shown}

-- A document whose elements are numbered: `carbon` is 0 with the child `titles`, 1, whose children
-- are three games from 2 on. It counts two of them.
abbrev games_after : ℕ → Option ℕ
games_after n = if ltb n 4 then some (n + 1) else none

abbrev document : Xml
document = record {
  Element = ℕ;
  first_child = λ e name.
      if e == 0
      then (if same_text name "titles" then some 1 else none)
      else if e == 1
      then some 2
      else none;
  next_sibling = λ e name. games_after e;
  attribute = λ e name. if same_text name "name" then some "A game" else none;
  int_attribute = λ e name. if e == 1 then some 2 else some (e - 2);
}

abbrev def : GameDef
def = load_definition document (some 0)

load_definition-titles_example :
    (length def.titles ≤ title_limit document (some 1))
    × ((k : ℕ)
        → k < title_limit document (some 1)
        → nth_title k def.titles ≡ Option.map (read_entry document) (nth_game document k (some 2)))
unfolding load_definition
load_definition-titles_example = load_definition-titles document (some 0)

-- Floats as thousandths above a million.
abbrev thousandths : Floats
thousandths = record {
  plus = λ a b. a + b - 1000000;
  minus = λ a b. a + 1000000 - b;
  times = λ a b. 1000000 + (a - 1000000) * (b - 1000000) / 1000;
  negated = λ a. 2000000 - a;
  less = ltb;
  at_most = leb;
  ratio = λ a b. 1000000 + 1000 * a / b;
  to_int = λ a. (a - 1000000) / 1000;
  from_int = λ n. 1000000 + 1000 * n;
}

abbrev white_colour : Colour
white_colour = grey 1001000 1001000

abbrev look : Look
look = record {
  anim_state = 0;
  sprite_x = 320;
  menu_fade = white_colour;
  fade_in_r = 1001000;
  fade_in_g = 1001000;
  fade_in_b = 1001000;
  shader_time = 1000000;
  scroll = 1000000;
  hint_fade = white_colour;
  hint_color = white_colour;
  pause_fade = white_colour;
  slide_x = 1000000;
  hue = 359;
  rainbow = 0;
  transition_active = true;
}

draw_menu_list-marks_one_example :
    (collect indented (draw_menu_list thousandths def 1 (record look { anim_state = 2 })).1
      ≡ lowered (1 * 40 + 40) (pos 500) ∷ [])
    × (collect bar (draw_menu_list thousandths def 1 (record look { anim_state = 2 })).1
        ≡ pos (1 * 40 + 240) ∷ [])
unfolding load_definition
draw_menu_list-marks_one_example =
    draw_menu_list-marks_one thousandths def 1 (record look { anim_state = 2 }) (refl, (refl, tt))
      (omega arith) (ground arith)

red_after-le : (k : ℕ) → red_after thousandths k 1001000 ≤ 1001000 - 35 * k
red_after-le zero = omega arith
red_after-le (suc k) = omega (arith, red_after-le k)

-- The fade is below zero after 29 steps of 35 thousandths.
white_falls : (k : ℕ) → 29 ≤ k → thousandths.less (red_after thousandths k 1001000) 1000000 ≡ true
white_falls k late = lt→ltb _ _ (omega (arith, red_after-le k))

draw_launch_transition-EndsWithin_example :
    EndsWithin thousandths def ((1400 - 320) / 36 + 1 + 29 + 3) look
draw_launch_transition-EndsWithin_example =
    draw_launch_transition-EndsWithin thousandths def look 29 refl white_falls

abbrev view : PauseView
view = record {
  selection = 1;
  pause_sub = 1;
  pause_slot = 0;
  filter = 0;
  closing = false;
  slots = λ n. record { empty = n; title = "Slot"; timestamp = "" };
}

draw_pause_menu-Shown_example : All (Shown view) (draw_pause_menu thousandths view look).1
draw_pause_menu-Shown_example = draw_pause_menu-Shown thousandths view look

-- An image of two pixels in three bytes each.
abbrev tga : List ℕ
tga =
    0 ∷ 0 ∷ 2 ∷ 0 ∷ 0 ∷ 0 ∷ 0 ∷ 0 ∷ 0 ∷ 0 ∷ 0 ∷ 0 ∷ 2 ∷ 0 ∷ 1 ∷ 0 ∷ 24 ∷ 0 ∷ 1 ∷ 2 ∷ 3 ∷ 4 ∷ 5 ∷ 6
    ∷ []

read_tga-IsFilled_example : IsFilled (λ i. 0) (λ n. true) tga (read_tga (λ i. 0) (λ n. true) tga)
read_tga-IsFilled_example = read_tga-IsFilled (λ i. 0) (λ n. true) tga

read_tga-colours :
    (read_tga (λ i. 0) (λ n. true) tga).data_bytes ≡ some (3 ∷ 2 ∷ 1 ∷ 6 ∷ 5 ∷ 4 ∷ [])
unfolding read_tga
read_tga-colours = refl

abbrev glyph_font : FontFile
glyph_font = record {
  ascent = 20;
  descent = 4;
  linegap = 1;
  glyphs = λ c. record { width = 8; height = 12; advance = 9; off_x = 1; off_y = 2 };
}

abbrev two_lines : List ℕ
two_lines = b'a' ∷ 0xc3 ∷ 0x0a ∷ b'b' ∷ []

print_text-lines_example :
    ((print_text thousandths (some glyph_font) 90 460 two_lines 1).quads
      ≡ line_quads thousandths glyph_font 1091000
          (first_line thousandths glyph_font 460 1)
          (first_of two_lines)
        ++ below thousandths glyph_font 1091000
            (first_line thousandths glyph_font 460 1)
            (others_of two_lines))
    × ((print_text thousandths (some glyph_font) 90 460 two_lines 1).height
        ≡ height_after thousandths glyph_font 1000000 (others_of two_lines))
print_text-lines_example = print_text-lines thousandths glyph_font 90 460 two_lines 1
