-- ===== src/App/Pause.antt =====
-- `case AppState::Pause` of `App::UpdateInput` in carbon-pc/src/app/App.cpp.
pub mod Released
use open_carbon.Base.{
  ℕ, zero, suc, ◌+◌, ◌-◌, List, [], ◌∷◌, Option, none, some, Bool, true, false, not, ◌&&◌, ◌||◌,
  ◌==◌, ltb, leb, if◌then◌else◌, u32, ◌^◌,
}
use mathlib.Core.Option
use open_carbon.State.{Machine}
use open_carbon.Cart.Load.{Loaded}
use open_carbon.System.Frame.{System}
use open_carbon.System.Boot.{reset}
use open_carbon.System.Joypad.{key_up}
use open_carbon.System.SaveFile.{save_state, load_state}
use open_carbon.System.SaveFile.Slots.{load_slot_previews}
use open_carbon.App.Input.{has, cb_a, cb_b, any_up, any_down, any_left, any_right}
use open_carbon.App.State.{
  App, AppState, exit_to_menu, HostCall, load_preview_textures, Menus, Sounds, Scene, decrement,
  is_negative, previous, following, log_call,
}

abbrev pub on_machine : (Machine → Machine) → App → App
on_machine f a = record a { system = record (a.system) { machine = f a.system.machine } }

abbrev pub sound_back : App → App
sound_back a = record a { sounds = record (a.sounds) { back = 1 } }

abbrev pub sound_select : App → App
sound_select a = record a { sounds = record (a.sounds) { select = 1 } }

abbrev pub sound_move : App → App
sound_move a = record a { sounds = record (a.sounds) { move = 1 } }

abbrev pub sound_toggle : App → App
sound_toggle a = record a { sounds = record (a.sounds) { toggle = 1 } }

-- `static_cast<unsigned>(sub - 1) < 2`
abbrev pub picks_slot : ℕ → Bool
picks_slot sub = ltb (decrement sub) 2

unfoldable pub pause_up : App → App
pause_up a =
    if picks_slot a.sub
    then sound_toggle (record a { slot = previous 0 a.slot })
    else sound_move (record a {
      menus = record (a.menus) { pause_selection = previous 5 a.menus.pause_selection };
    })

-- `if (++slot >= 3) slot = 2`
abbrev pub next_slot : ℕ → ℕ
next_slot slot =
    let next = u32 (slot + 1) in if not (is_negative next) && leb 3 next then 2 else next

unfoldable pub pause_down : App → App
pause_down a =
    if ltb 1 (decrement a.sub)
    then sound_move (record a {
      menus = record (a.menus) { pause_selection = following 5 a.menus.pause_selection };
    })
    else sound_toggle (record a { slot = next_slot a.slot })

unfoldable pub pause_move : ℕ → App → App
pause_move pressed a =
    if has pressed any_up then pause_up a else if has pressed any_down then pause_down a else a

-- Entering the list of slots.
abbrev pub pick : ℕ → App → App
pick sub a = sound_toggle (record a { slot = 0; sub = sub })

unfoldable pub pause_right : ℕ → App → App
pause_right pressed a =
    if has pressed any_right
    then (if a.menus.pause_selection == 2
        then pick 2 a
        else if a.menus.pause_selection == 1
        then pick 1 a
        else a)
    else a

unfoldable pub resume : App → App
resume a = record a {
  scene = record (a.scene) { pause_closing = true; paused = false };
  sounds = record (a.sounds) { music_fade_out = 1 };
}

abbrev pub clear_fade : App → App
clear_fade a = record a { scene = record (a.scene) { menu_fade = 0 } }

-- What reads the title of `carts::current`. `none` is the null pointer's dereference.
unfoldable pub with_title : Option Loaded → (List ℕ → App) → Option App
with_title none use_title = none
with_title (some cart) use_title = some (use_title cart.title)

-- `gb::LoadState` and `gb::SaveState` of the selected slot.
unfoldable pub load_slot : App → List ℕ → App
load_slot a title = record a {
  system = load_state title a.slot a.menus.menu_selection a.disk a.system;
}

unfoldable pub save_slot : List ℕ → App → List ℕ → App
save_slot stamp a title =
    let game = a.menus.menu_selection in
    let disk = save_state stamp title a.slot game a.system a.disk in
    log_call load_preview_textures
      (record a { disk = disk; slots = load_slot_previews title game disk a.slots })

-- `default` of the switch: an entry of the list of options.
unfoldable pub pause_option : App → App
unfolding resume
pause_option a =
    let s = a.menus.pause_selection in
    if s == 1
    then pick 1 a
    else if s == 2
    then pick 2 a
    else if s == 3
    then resume (on_machine reset a)
    else if s == 0
    then resume a
    else if s == 4
    then sound_toggle
        (record a { menus = record (a.menus) { filter = following 2 a.menus.filter } })
    else if s == 5
    then record a { state = exit_to_menu; scene = record (a.scene) { paused = false } }
    else a

unfoldable pub pause_accept : List ℕ → App → Option App
unfolding load_slot save_slot pause_option resume with_title
pause_accept stamp a =
    if a.sub == 1
    then with_title a.current (λ title. sound_select (resume (load_slot (clear_fade a) title)))
    else if a.sub == 2
    then some (sound_toggle (record (clear_fade a) { sub = 4 }))
    else if a.sub == 3
    then with_title a.current (λ title. resume (load_slot a title))
    else if a.sub == 4
    then with_title a.current (λ title. sound_select (record (save_slot stamp a title) { sub = 2 }))
    else some (pause_option a)

unfoldable pub pause_back : App → App
unfolding resume
pause_back a =
    let b = sound_back a in
    if not (a.sub == 3) && not (a.sub == 4) then resume b else record b { sub = 2 }

-- `for (int k = 0; k < 8; ++k) gb::KeyUp(k);`
unfoldable pub release_keys : App → App
release_keys a =
    on_machine
      (λ m. key_up 7 (key_up 6 (key_up 5 (key_up 4 (key_up 3 (key_up 2 (key_up 1 (key_up 0 m))))))))
      a

unfoldable pub pause_left : App → App
pause_left a =
    if not (a.sub == 2) && not (a.sub == 1)
    then a
    else sound_move (record a { slot = 2 ^ 32 - 1; sub = 0 })

-- Everything after the cursor. The left direction returns at once, as does a round without a button.
unfoldable pub pause_act : List ℕ → ℕ → App → Option App
unfolding pause_left pause_accept pause_back release_keys
pause_act stamp pressed a =
    if has pressed any_left
    then some (pause_left a)
    else if has pressed cb_a
    then Option.map release_keys (pause_accept stamp a)
    else if has pressed cb_b
    then some (release_keys (pause_back a))
    else some a

unfoldable pub pause_input : List ℕ → App → Option App
unfolding pause_move pause_right pause_act
pause_input stamp a = let p = a.input.pressed in pause_act stamp p (pause_right p (pause_move p a))
