-- ===== src/App/Update.antt =====
-- `App::UpdateInput` of carbon-pc/src/app/App.cpp.
use mathlib.Core.Option
use open_carbon.Base.{
  ℕ, ◌+◌, List, [], ◌∷◌, Option, none, some, true, not, ◌&&◌, ◌==◌, ltb, leb, if◌then◌else◌, u32,
  u8,
}
use open_carbon.State.{Machine, construct}
use open_carbon.Memory.{apu_call}
use open_carbon.Cart.Load.{Loaded, load}
use open_carbon.System.Ring
use open_carbon.System.Frame.{System}
use open_carbon.System.Boot.{init, reset}
use open_carbon.System.SaveFile.Slots.{load_slot_previews}
use open_carbon.App.Input.{has, input_update, any_up, any_down, cb_a, cb_b}
use open_carbon.App.State.{
  title_count, App, AppState, main_menu, credits, artwork, in_game, pause, submenu6, exit_to_menu,
  reset_game, unhandled11, unhandled12, options13, launch_game, return_to_menu, show_credits,
  load_preview_textures, gba_load_rom, gba_reset, gba_exit, Host, GameEntry, Round, is_negative,
  previous, following, log_call,
}
use open_carbon.App.Pause.{on_machine, sound_back, sound_select, pause_input}
use open_carbon.App.Keys.{gb_input, gba_input}
use open_carbon.App.Menu.{artwork_input, menu_input}

-- `none` is the dereference of the null pointer.
unfoldable pub game_input : Option Loaded → App → Option App
unfolding gb_input gba_input
game_input none a = none
game_input (some cart) a = some (
    if ltb cart.system_type 2 then gb_input a else if cart.system_type == 2 then gba_input a else a)

-- `kSubmenu6Targets`
unfoldable pub submenu6_target : ℕ → AppState → AppState
submenu6_target s old =
    if s == 0
    then exit_to_menu
    else if s == 1
    then reset_game
    else if s == 2
    then unhandled12
    else if s == 3
    then unhandled11
    else old

unfoldable pub submenu6_input : App → App
unfolding submenu6_target
submenu6_input a =
    let p = a.input.pressed in
    let s = a.menus.submenu6_selection in
    if has p any_up
    then record a { menus = record (a.menus) { submenu6_selection = previous 3 s } }
    else if has p any_down
    then record a { menus = record (a.menus) { submenu6_selection = following 3 s } }
    else if has p cb_a
    then sound_select (record a { state = submenu6_target s a.state })
    else if has p cb_b
    then sound_back (record a { state = pause })
    else a

-- `gb::Shutdown`, as far as it concerns the machine.
unfoldable pub shutdown : Machine → Machine
shutdown m = apu_call m construct

unfoldable pub back_to_menu : App → App
back_to_menu a = record a {
  scene = record (a.scene) { menu_sprite_x = 1800; menu_anim_state = 0; menu_fade_in = 0 };
  state = main_menu;
  sounds = record (a.sounds) {
    music_restart = 1;
    music_fade_in = 1;
    music_fade_in_target = 700;
    back = 1;
  };
}

unfoldable pub exit_game : Option Loaded → App → Option App
unfolding shutdown back_to_menu
exit_game none a = none
exit_game (some cart) a = some (
    back_to_menu (
      if ltb cart.system_type 2
      then record (on_machine shutdown a) { current = none }
      else if cart.system_type == 2
      then log_call gba_exit a
      else a))

unfoldable pub reset_input : Option Loaded → App → Option App
reset_input none a = none
reset_input (some cart) a = some (
    sound_back (
      if ltb cart.system_type 2
      then record (on_machine reset a) { state = in_game }
      else if cart.system_type == 2
      then record (log_call gba_reset a) { state = in_game }
      else a))

unfoldable pub option_value : App → App
option_value a =
    let s = a.menus.options13_selection in
    if s == 2
    then record a {
      menus = record (a.menus) {
        gba_background =
            let next = u32 (a.menus.gba_background + 1) in
            if not (is_negative next) && leb 2 next then 0 else next;
      };
    }
    else if s == 1
    then record a { menus = record (a.menus) { filter = following 2 a.menus.filter } }
    else if s == 0
    then record a {
      menus = record (a.menus) {
        option13_changed = true;
        option13_value0 = following 2 a.menus.option13_value0;
      };
    }
    else a

unfoldable pub options_move : ℕ → App → App
options_move p a =
    let s = a.menus.options13_selection in
    if has p any_up
    then record a { menus = record (a.menus) { options13_selection = previous 2 s } }
    else if has p any_down
    then record a { menus = record (a.menus) { options13_selection = following 2 s } }
    else a

unfoldable pub options_input : App → App
unfolding option_value options_move
options_input a =
    let p = a.input.pressed in
    let b = options_move p a in
    let c = if has p cb_a then option_value b else b in
    if has p cb_b then record (sound_back c) { state = pause } else c

-- The first title with the selected id.
unfoldable pub find_title : ℕ → List GameEntry → Option GameEntry
find_title selection [] = none
find_title selection (e ∷ rest) =
    let found = find_title selection rest in if selection == u8 e.id then some e else found

module _ (host : Host) where
  -- `carts::Load` and the assignment of its result. `none` is its abort.
  unfoldable pub load_title : Option GameEntry → App → Option App
  load_title none a = some a
  load_title (some e) a =
      Option.map
        (λ (m, cart). record a {
          state = in_game;
          launched_system = 1;
          current = some cart;
          system = record (a.system) { machine = record m { cart = cart.cart } };
        })
        (load host.past host.files host.clock a.system.machine e.rom_name)

  -- `gb::Init`
  abbrev pub start_system : System → System
  start_system s = record s { machine = init s.machine; frame_count = 0; ring = Ring.clear s.ring }

  unfoldable pub start_game : Option Loaded → App → Option App
  start_game none a = none
  start_game (some cart) a = some (
      if ltb cart.system_type 2
      then log_call load_preview_textures (record a {
        system = start_system a.system;
        slots = load_slot_previews cart.title a.menus.menu_selection a.disk a.slots;
      })
      else if cart.system_type == 2
      then log_call gba_load_rom a
      else a)

  unfoldable pub launch_input : App → Option App
  unfolding load_title start_game find_title
  launch_input a =
      if a.scene.transition_active
      then some a
      else Option.bind (load_title (find_title a.menus.menu_selection host.titles) a)
          (λ b. start_game b.current b)

  unfoldable pub update_state : List ℕ → AppState → App → Option App
  unfolding menu_input artwork_input game_input pause_input submenu6_input exit_game reset_input
      options_input launch_input
  update_state stamp main_menu a = some (menu_input (title_count host) a)
  update_state stamp credits a = some (record (log_call show_credits a) { state = main_menu })
  update_state stamp artwork a = some (artwork_input a)
  update_state stamp in_game a = game_input a.current a
  update_state stamp pause a = pause_input stamp a
  update_state stamp submenu6 a = some (submenu6_input a)
  update_state stamp exit_to_menu a = exit_game a.current a
  update_state stamp reset_game a = reset_input a.current a
  update_state stamp unhandled11 a = some a
  update_state stamp unhandled12 a = some a
  update_state stamp options13 a = some (options_input a)
  update_state stamp launch_game a = launch_input a
  update_state stamp return_to_menu a =
      some (if a.scene.transition_active then a else record a { state = main_menu })

  unfoldable pub update_input : Round → App → Option App
  unfolding update_state
  update_input round a =
      update_state round.stamp a.state (record a { input = input_update a.input round.pad })
