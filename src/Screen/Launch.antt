-- ===== src/Screen/Launch.antt =====
-- `DrawLaunchTransition` of carbon-pc/src/app/Renderer.cpp.
pub mod Ends
use open_carbon.Base.{ℕ, ◌+◌, List, [], ◌∷◌, ◌++◌, Bool, true, false, ◌==◌, ltb, if◌then◌else◌}
use open_carbon.App.Definition.{GameDef}
use open_carbon.Screen.{
  Floats, Colour, grey, pos, named, sprite_shader, Draw, sprite, set_time, Look, full_screen, white,
  black, scrolled,
}
use open_carbon.Screen.Menu.{logo, button_hint, menu_sprite}

module _ (fl : Floats) where
  -- `applyFadeStep`: alpha is left alone.
  unfoldable pub fade_step : Colour → Colour
  fade_step c =
      let step = fl.ratio 35 1000 in
      record c { r = fl.minus c.r step; g = fl.minus c.g step; b = fl.minus c.b step }

  -- What the states of the animation leave, and the colour that is drawn in.
  unfoldable pub slide_out : Look → Look × Colour
  unfolding fade_step
  slide_out l =
      let f = record l { menu_fade = fade_step l.menu_fade } in
      (
        if ltb 1400 (l.sprite_x + 36)
            then record f { sprite_x = 1400; anim_state = 1 }
            else record f { sprite_x = l.sprite_x + 36 },
        f.menu_fade,
      )

  unfoldable pub fade_out : Look → Look × Colour
  unfolding fade_step
  fade_out l =
      let one = fl.ratio 1 1 in
      let f = fade_step l.menu_fade in
      if fl.less (fl.minus l.menu_fade.r (fl.ratio 35 1000)) (fl.ratio 0 1)
      then (record l { menu_fade = black fl one; anim_state = 2 }, black fl one)
      else (record l { menu_fade = f }, f)

  unfoldable pub transition_step : Look → Look × Colour
  unfolding slide_out fade_out
  transition_step l =
      let dark = black fl (fl.ratio 1 1) in
      if l.anim_state == 0
      then slide_out l
      else if l.anim_state == 1
      then fade_out l
      else if l.anim_state == 2
      then (record l { anim_state = 3; scroll = scrolled fl l.scroll }, dark)
      else (l, dark)

  -- State 3: nothing is drawn any more.
  unfoldable pub finish_transition : Look → Look
  finish_transition l =
      let one = fl.ratio 1 1 in
      record l {
        sprite_x = 120;
        menu_fade = black fl (fl.ratio 0 1);
        fade_in_r = one;
        fade_in_g = one;
        fade_in_b = one;
        transition_active = false;
      }

  unfoldable pub draw_launch_transition : GameDef → Look → Look × List Draw
  unfolding transition_step finish_transition
  draw_launch_transition def l =
      let (m, color) = transition_step l in
      let time = fl.plus m.shader_time (fl.ratio 2 100) in
      if l.anim_state == 3 then (finish_transition l, []) else (
        record m { shader_time = time },
        (set_time time
              ∷ sprite sprite_shader (named "MenuBackground") (pos 0) (pos 0) full_screen color
              ∷ menu_sprite def m.sprite_x (white fl)
              ∷ [])
            ++ logo def color
            ++ button_hint def color,
      )
