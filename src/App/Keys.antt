-- ===== src/App/Keys.antt =====
-- `case AppState::InGame` of `App::UpdateInput` in carbon-pc/src/app/App.cpp.
use open_carbon.Base.{ℕ, Bool, true, ◌==◌, if◌then◌else◌, bit_and, bit_or}
use open_carbon.State.{Machine}
use open_carbon.System.Joypad.{key_down, key_up}
use open_carbon.App.Input.{
  Input, has, when, any_up, any_down, any_left, any_right, cb_a, cb_b, cb_x, cb_y, cb_plus, cb_l,
  cb_r,
}
use open_carbon.App.State.{App, pause}
use open_carbon.App.Pause.{on_machine}

-- `if (down & mask) gb::KeyDown(key); else if (released & mask) gb::KeyUp(key);`
unfoldable pub key_for : ℕ → ℕ → ℕ → ℕ → Machine → Machine
key_for down released mask key m =
    if has down mask then key_down key m else if has released mask then key_up key m else m

-- Left follows the presses, the other directions the held state.
unfoldable pub game_keys : Input → Machine → Machine
unfolding key_for
game_keys i m =
    let up = key_for i.held i.released any_up 2 m in
    let down = key_for i.held i.released any_down 3 up in
    let right = key_for i.held i.released any_right 0 down in
    let left = key_for i.pressed i.released any_left 1 right in
    let b = key_for i.pressed i.released cb_b 4 left in
    let a = key_for i.pressed i.released cb_a 5 b in
    let y = key_for i.pressed i.released cb_y 5 a in
    let plus = key_for i.pressed i.released cb_plus 7 y in key_for i.pressed i.released cb_x 6 plus

-- `(~held & 0x70) == 0`
abbrev pub opens_pause : ℕ → Bool
opens_pause held = bit_and held 0x70 == 0x70

unfoldable pub open_pause : App → App
open_pause a =
    if opens_pause a.input.held
    then record a {
      state = pause;
      menus = record (a.menus) { pause_selection = 0 };
      sub = 0;
      scene = record (a.scene) { game_tint = 1000; paused = true };
    }
    else a

unfoldable pub shoulder : App → App
shoulder a =
    if has a.input.held cb_l
    then record a { l_shoulder_held = 1 }
    else if has a.input.released cb_l
    then record a { l_shoulder_held = 0 }
    else a

unfoldable pub gb_input : App → App
unfolding game_keys open_pause shoulder
gb_input a = shoulder (open_pause (on_machine (game_keys a.input) a))

unfoldable pub gba_bits : ℕ → ℕ
gba_bits held =
    let up = when (has held any_up) 0x40 in
    let down = bit_or up (when (has held any_down) 0x80) in
    let right = bit_or down (when (has held any_right) 0x10) in
    let left = bit_or right (when (has held any_left) 0x20) in
    let b = bit_or left (when (has held cb_b) 0x2) in
    let a = bit_or b (when (has held cb_a) 0x1) in
    let plus = bit_or a (when (has held cb_plus) 0x8) in
    let l = bit_or plus (when (has held cb_l) 0x200) in bit_or l (when (has held cb_r) 0x100)

unfoldable pub gba_input : App → App
unfolding gba_bits
gba_input a =
    let b = record a { gba_keys = gba_bits a.input.held } in
    if has a.input.held 0x50 then record b { state = pause } else b
