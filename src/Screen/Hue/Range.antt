-- ===== src/Screen/Hue/Range.antt =====
-- The hue of carbon-pc/src/app/Renderer.cpp stays an index of the table.
use open_carbon.Base.{ℕ, ◌≤◌, ◌<◌, arith}
use open_carbon.App.Definition.{GameDef}
use open_carbon.Screen.{Floats, Look}
use open_carbon.Screen.Hue.{next_hue, pause_hue}
use open_carbon.Screen.Menu.{draw_main_menu, draw_menu_list}
use open_carbon.Screen.Launch.{draw_launch_transition}
use open_carbon.Screen.Pause.{PauseView, draw_pause_options, draw_pause_menu}

abbrev pub InTable : ℕ → Type 0
InTable hue = (40 ≤ hue) × (hue < 360)

next_hue-InTable : (step hue : ℕ) → InTable hue → InTable (next_hue step hue)
unfolding next_hue
next_hue-InTable step hue h = ground arith

pause_hue-InTable : (hue : ℕ) → InTable hue → InTable (pause_hue hue)
unfolding pause_hue
pause_hue-InTable hue h = ground arith

-- A screen is drawn by some of these calls.
pub data Screen : Type 0 where
  main_menu : GameDef → Screen
  menu_list : GameDef → ℕ → Screen
  transition : GameDef → Screen
  pause_options : PauseView → Screen
  pause_menu : PauseView → Screen

-- What a call leaves in the globals.
abbrev pub drawn : Floats → Screen → Look → Look
drawn fl (main_menu def) l = (draw_main_menu fl def l).0
drawn fl (menu_list def selection) l = (draw_menu_list fl def selection l).0
drawn fl (transition def) l = (draw_launch_transition fl def l).0
drawn fl (pause_options v) l = (draw_pause_options fl v l).0
drawn fl (pause_menu v) l = (draw_pause_menu fl v l).0

-- Whatever is drawn, the hue stays between 40 and 359.
pub drawn-InTable :
    (fl : Floats) (screen : Screen) (l : Look) → InTable l.hue → InTable (drawn fl screen l).hue
unfolding draw_main_menu draw_menu_list draw_launch_transition draw_pause_options draw_pause_menu
drawn-InTable fl (main_menu def) l h = ground arith
drawn-InTable fl (menu_list def selection) l h = next_hue-InTable 2 l.hue h
drawn-InTable fl (transition def) l h = ground arith
drawn-InTable fl (pause_options v) l h = ground (arith, next_hue-InTable 8 l.hue h)
drawn-InTable fl (pause_menu v) l h = ground (arith, pause_hue-InTable l.hue h)
