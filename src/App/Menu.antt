-- ===== src/App/Menu.antt =====
-- The main menu and the pictures of `App::UpdateInput` of carbon-pc/src/app/App.cpp.
use open_carbon.Base.{ℕ, ◌+◌, ◌-◌, true, ◌||◌, ◌==◌, ltb, if◌then◌else◌, u32}
use open_carbon.App.Input.{has, any_up, any_down, cb_a, cb_b, cb_r, cb_l}
use open_carbon.App.State.{
  App, main_menu, credits, artwork, launch_game, select_artwork, draw_launch_transition, previous,
  log_call,
}
use open_carbon.App.Pause.{sound_back, sound_select, sound_move, sound_toggle}

abbrev pub select_title : ℕ → App → App
select_title sel a = sound_move (record a { menus = record (a.menus) { menu_selection = sel } })

abbrev pub start_transition : App → App
start_transition a = record a {
  scene = record (a.scene) { menu_anim_state = 0; transition_active = true };
}

-- The switch is written for two titles.
unfoldable pub menu_accept : App → App
menu_accept a =
    let s = a.menus.menu_selection in
    let b = sound_select a in
    if s == 0 || s == 1
    then record (start_transition b) {
      state = launch_game;
      sounds = record (b.sounds) { music_fade_out = 1 };
    }
    else if s == 2
    then log_call (select_artwork a.scene.art_index)
        (start_transition (record b { state = artwork }))
    else if s == 3
    then record b { state = credits }
    else b

unfoldable pub menu_input : ℕ → App → App
unfolding menu_accept
menu_input titles a =
    let p = a.input.pressed in
    let s = a.menus.menu_selection in
    let next = u32 (s + 1) in
    if has p any_up
    then select_title (previous (titles + 1) s) a
    else if has p any_down
    then select_title (if ltb (titles + 1) next then 0 else next) a
    else if has p cb_a
    then (if a.scene.menu_anim_state == 2 then menu_accept a else a)
    else a

unfoldable pub artwork_ui : ℕ → ℕ → App → App
artwork_ui pressed released a =
    if has pressed cb_a
    then record a { scene = record (a.scene) { art_ui_visible = 0; art_ui_timer = 0 } }
    else if has released cb_a
    then record a { scene = record (a.scene) { art_ui_visible = 1; art_ui_timer = 0 } }
    else a

unfoldable pub artwork_leave : ℕ → App → App
artwork_leave pressed a =
    if has pressed cb_b
    then log_call draw_launch_transition (sound_back (record a { state = main_menu }))
    else a

abbrev pub show_artwork : ℕ → App → App
show_artwork i a =
    log_call (select_artwork i)
      (sound_toggle (record a { scene = record (a.scene) { art_index = i } }))

unfoldable pub artwork_turn : ℕ → App → App
artwork_turn pressed a =
    let i = a.scene.art_index in
    if has pressed cb_r
    then show_artwork (if ltb i 15 then i + 1 else 0) a
    else if has pressed cb_l
    then show_artwork (if ltb 0 i then i - 1 else 15) a
    else a

unfoldable pub artwork_input : App → App
unfolding artwork_ui artwork_leave artwork_turn
artwork_input a =
    let p = a.input.pressed in artwork_turn p (artwork_leave p (artwork_ui p a.input.released a))
