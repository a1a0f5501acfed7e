-- ===== src/App/Run.antt =====
-- `App::Init`, `App::Run` and `App::CloseGameOnExitRequest` of carbon-pc/src/app/App.cpp, and
-- `Input::Init` of Input.cpp. Drawing is left out but for what it changes of the state.
pub mod Exit
use mathlib.Core.Option
use open_carbon.Base.{
  ◌≡◌, ℕ, ◌+◌, ◌-◌, List, [], ◌∷◌, Option, none, some, Bool, true, false, ◌==◌, ltb, ◌&&◌,
  if◌then◌else◌,
}
use open_carbon.State.{Machine}
use open_carbon.Cart.Load.{Loaded}
use open_carbon.System.Ring
use open_carbon.System.Frame.{System, Stereo, run_frame}
use open_carbon.System.SaveFile.{Disk, save_state}
use open_carbon.System.SaveFile.Slots.{SlotInfo}
use open_carbon.App.Input.{Input, Npad, no_sticks, input_update}
use open_carbon.App.State.{
  App, AppState, main_menu, credits, artwork, in_game, pause, submenu6, exit_to_menu, reset_game,
  unhandled11, unhandled12, options13, launch_game, return_to_menu, Menus, Sounds, Scene, Host,
  Round,
}
use open_carbon.App.Pause.{on_machine}
use open_carbon.App.Update.{update_input, shutdown}

-- What the renderer leaves in the globals in one round: the animation and the transition, the tint
-- of the game, and whether the pause menu has slid off the screen.
pub record Drawing : Type 0 where
  pub anim_state : ℕ
  pub sprite_x : ℕ
  pub fade : ℕ
  pub fade_in : ℕ
  pub tint : ℕ
  pub transition : Bool
  pub slid_out : Bool

abbrev pub input_init : Input
input_init = record {
  initialized = true;
  held = 0;
  prev_held = 0;
  sticks = no_sticks;
  prev_sticks = no_sticks;
  pressed = 0;
  released = 0;
}

-- `App::Init` and the start of `App::Run`, which reads the controller once before the splash screen.
unfoldable pub app_init : System → Disk → (ℕ → SlotInfo) → Npad → App
app_init system disk slots pad = record {
  state = main_menu;
  launched_system = 0;
  input = input_update input_init pad;
  menus = record {
    menu_selection = 0;
    pause_selection = 0;
    submenu6_selection = 0;
    options13_selection = 0;
    filter = 0;
    option13_value0 = 0;
    option13_changed = false;
    gba_background = 1;
  };
  sounds = record {
    back = 0;
    select = 0;
    move = 0;
    toggle = 0;
    music_restart = 0;
    music_fade_in = 0;
    music_fade_in_target = 1000;
    music_fade_out = 0;
  };
  scene = record {
    menu_anim_state = 0;
    menu_sprite_x = 1800;
    menu_fade_in = 0;
    menu_fade = 0;
    game_tint = 1000;
    transition_active = false;
    pause_closing = false;
    paused = false;
    art_index = 0;
    art_ui_visible = 1;
    art_ui_timer = 0;
  };
  sub = 0;
  slot = 0;
  current = none;
  system = system;
  l_shoulder_held = 0;
  slots = slots;
  gba_keys = 0;
  disk = disk;
  calls = [];
}

-- The exit request: an automatic save in slot 4 of game 0, and the cartridge is closed.
unfoldable pub close_game : List ℕ → Option Loaded → App → App
unfolding shutdown
close_game stamp none a = a
close_game stamp (some cart) a =
    if ltb cart.system_type 2
    then record (on_machine shutdown a) {
      disk = save_state stamp cart.title 4 0 a.system a.disk;
      current = none;
    }
    else a

-- The system type of a missing cartridge is 0 here.
abbrev pub drawn_type : Option Loaded → ℕ
drawn_type none = 0
drawn_type (some cart) = cart.system_type

abbrev pub animate : Drawing → App → App
animate d a = record a {
  scene = record (a.scene) {
    menu_anim_state = d.anim_state;
    menu_sprite_x = d.sprite_x;
    menu_fade = d.fade;
    menu_fade_in = d.fade_in;
    transition_active = d.transition;
  };
}

-- The end of the pause menu: the game goes on once the menu has slid out.
unfoldable pub draw_pause : Drawing → App → App
draw_pause d a =
    let silent =
      if ltb (drawn_type a.current) 2
      then record a { system = record (a.system) { ring = Ring.clear a.system.ring } }
      else a in
    let tinted = record silent { scene = record (silent.scene) { game_tint = d.tint } } in
    if a.scene.pause_closing && d.slid_out
    then record tinted { state = in_game; scene = record (tinted.scene) { pause_closing = false } }
    else tinted

module _ (host : Host) (stereo : Stereo) (fuel : ℕ) where
  -- `none` is a frame that does not end within the fuel.
  unfoldable pub draw_game : App → Option App
  draw_game a =
      if ltb (drawn_type a.current) 2
      then Option.map (λ s. record a { system = s }) (run_frame stereo fuel a.system)
      else some a

  unfoldable pub draw : Drawing → AppState → App → Option App
  unfolding draw_game draw_pause
  draw d main_menu a = some (animate d a)
  draw d credits a = some a
  draw d artwork a = some a
  draw d in_game a = draw_game a
  draw d pause a = some (draw_pause d a)
  draw d submenu6 a = some a
  draw d exit_to_menu a = some (record a { scene = record (a.scene) { game_tint = 1000 } })
  draw d reset_game a = some a
  draw d unhandled11 a = some a
  draw d unhandled12 a = some a
  draw d options13 a = some a
  draw d launch_game a = some (if a.scene.transition_active then animate d a else a)
  draw d return_to_menu a = some (if a.scene.transition_active then animate d a else a)

  -- One round of the loop without an exit request.
  unfoldable pub run_round : Round → Drawing → App → Option App
  unfolding draw
  run_round round d a = Option.bind (update_input host round a) (λ b. draw d b.state b)

  -- The states that the loop reaches, from a start with any machine, disk and controller.
  pub data Reached : App → Type 0 where
    start :
        (system : System) (disk : Disk) (slots : ℕ → SlotInfo) (pad : Npad)
        → Reached (app_init system disk slots pad)
    round : {a b : App} (r : Round) (d : Drawing) → Reached a → run_round r d a ≡ some b → Reached b
