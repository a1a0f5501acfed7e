-- ===== src/App/State.antt =====
-- The state of carbon-pc/src/app/App.h, with the globals of Globals.h and the fields of the renderer
-- that the application changes. Colours and the music's target volume are kept in thousandths; a
-- colour whose components are always equal is one number.
use open_carbon.Base.{
  length, ℕ, ◌+◌, ◌-◌, ◌^◌, List, ◌∷◌, Option, Bool, leb, ltb, if◌then◌else◌, u32, Bytes,
}
use open_carbon.State.{SramFile}
use open_carbon.Cart.Load.{Loaded}
use open_carbon.System.Frame.{System}
use open_carbon.System.SaveFile.{Disk}
use open_carbon.System.SaveFile.Slots.{SlotInfo}
use open_carbon.App.Input.{Input, Npad}

-- `AppState`
pub data AppState : Type 0 where
  main_menu : AppState
  credits : AppState
  artwork : AppState
  in_game : AppState
  pause : AppState
  submenu6 : AppState
  exit_to_menu : AppState
  reset_game : AppState
  unhandled11 : AppState
  unhandled12 : AppState
  options13 : AppState
  launch_game : AppState
  return_to_menu : AppState

-- The calls that leave the repository's core: the credits page, the pictures and the emulator of the
-- other console.
pub data HostCall : Type 0 where
  show_credits : HostCall
  select_artwork : ℕ → HostCall
  draw_launch_transition : HostCall
  load_preview_textures : HostCall
  gba_load_rom : HostCall
  gba_reset : HostCall
  gba_exit : HostCall

-- The fields of `Renderer` that the input handler changes.
pub record Menus : Type 0 where
  pub menu_selection : ℕ
  pub pause_selection : ℕ
  pub submenu6_selection : ℕ
  pub options13_selection : ℕ
  pub filter : ℕ
  pub option13_value0 : ℕ
  pub option13_changed : Bool
  pub gba_background : ℕ

-- The triggers that the menu audio thread reads.
pub record Sounds : Type 0 where
  pub back : ℕ
  pub select : ℕ
  pub move : ℕ
  pub toggle : ℕ
  pub music_restart : ℕ
  pub music_fade_in : ℕ
  pub music_fade_in_target : ℕ
  pub music_fade_out : ℕ

-- The menu animation, the pictures' user interface and the pause menu's flags.
pub record Scene : Type 0 where
  pub menu_anim_state : ℕ
  pub menu_sprite_x : ℕ
  pub menu_fade_in : ℕ
  pub menu_fade : ℕ
  pub game_tint : ℕ
  pub transition_active : Bool
  pub pause_closing : Bool
  pub paused : Bool
  pub art_index : ℕ
  pub art_ui_visible : ℕ
  pub art_ui_timer : ℕ

-- `sub` and `slot` are `g::pauseSub`, as bit patterns of an `int`; `current` is `carts::current`.
pub record App : Type 0 where
  pub state : AppState
  pub launched_system : ℕ
  pub input : Input
  pub menus : Menus
  pub sounds : Sounds
  pub scene : Scene
  pub sub : ℕ
  pub slot : ℕ
  pub current : Option Loaded
  pub system : System
  pub l_shoulder_held : ℕ
  pub slots : ℕ → SlotInfo
  pub gba_keys : ℕ
  pub disk : Disk
  pub calls : List HostCall

-- A title of the game definition: `id` as the byte that it is compared as.
pub record GameEntry : Type 0 where
  pub id : ℕ
  pub rom_name : List ℕ

-- The game definition, the host's files, what stands in memory behind a ROM's buffer, and the clock.
pub record Host : Type 0 where
  pub titles : List GameEntry
  pub files : List ℕ → SramFile
  pub past : Bytes
  pub clock : ℕ → ℕ

-- `GameDef::GetTitleCount`
abbrev pub title_count : Host → ℕ
title_count host = length host.titles

-- What the host gives to one round: the controller, and the local time as text.
pub record Round : Type 0 where
  pub pad : Npad
  pub stamp : List ℕ

-- `--x`, `x < 0` and the two ways a menu wraps around.
abbrev pub decrement : ℕ → ℕ
decrement x = u32 (x + (2 ^ 32 - 1))

abbrev pub is_negative : ℕ → Bool
is_negative x = leb (2 ^ 31) x

abbrev pub previous : ℕ → ℕ → ℕ
previous last x = if is_negative (decrement x) then last else decrement x

abbrev pub following : ℕ → ℕ → ℕ
following last x =
    let next = u32 (x + 1) in if is_negative next then next else if ltb last next then 0 else next

abbrev pub log_call : HostCall → App → App
log_call c a = record a { calls = c ∷ a.calls }
