-- ===== src/App/Valid.antt =====
-- What holds of the application's state in every round.
pub mod Paused
pub mod Rounds
pub mod Reached
pub mod Running
use open_carbon.Base.{
  ℕ, ◌+◌, ◌-◌, Option, none, some, Bool, true, false, not, ◌&&◌, ◌||◌, ◌==◌, ltb, leb, ◌≡◌, refl,
  arith, if◌then◌else◌, u32, List,
}
use open_carbon.Cart.Load.{Loaded}
use open_carbon.App.Input.{has}
use open_carbon.App.State.{
  App, AppState, main_menu, credits, artwork, in_game, pause, submenu6, exit_to_menu, reset_game,
  unhandled11, unhandled12, options13, launch_game, return_to_menu,
}
use open_carbon.App.Pause.{
  pause_up, pause_down, pause_move, pause_right, pause_left, pause_option, resume, pause_back,
}

abbrev pub has_cart : Option Loaded → Bool
has_cart none = false
has_cart (some cart) = true

-- A state that the application enters, with what it relies on.
unfoldable pub state_fits : AppState → ℕ → Option Loaded → Bool
state_fits main_menu selection current = true
state_fits credits selection current = true
state_fits artwork selection current = true
state_fits in_game selection current = has_cart current
state_fits pause selection current = has_cart current
state_fits submenu6 selection current = false
state_fits exit_to_menu selection current = has_cart current
state_fits reset_game selection current = false
state_fits unhandled11 selection current = false
state_fits unhandled12 selection current = false
state_fits options13 selection current = false
state_fits launch_game selection current = ltb selection 2
state_fits return_to_menu selection current = false

-- With a list of slots open, one of the three is selected; a load is never confirmed.
unfoldable pub slot_fits : ℕ → ℕ → Bool
slot_fits sub slot = sub == 0 || (sub == 1 || sub == 2 || sub == 4) && ltb slot 3

unfoldable pub is_valid : ℕ → App → Bool
unfolding slot_fits
is_valid titles a =
    state_fits a.state a.menus.menu_selection a.current
    && leb a.menus.menu_selection (titles + 1)
    && leb a.menus.pause_selection 5
    && leb a.menus.filter 2
    && leb a.scene.art_index 15
    && slot_fits a.sub a.slot

-- Of every result, if there is one.
unfoldable pub all_valid : ℕ → Option App → Bool
all_valid titles none = true
all_valid titles (some a) = is_valid titles a
