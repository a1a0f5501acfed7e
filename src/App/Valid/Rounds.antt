-- ===== src/App/Valid/Rounds.antt =====
-- Every round of carbon-pc/src/app/App.cpp keeps `is_valid`.
use mathlib.Core.Option
use mathlib.Core.Bool.{false≢true}
use open_carbon.Base.{
  ℕ, Option, none, some, Bool, true, false, ◌≡◌, refl, arith, if◌then◌else◌, List, inl, inr, ap,
  Option-cases,
}
use open_carbon.Cart.Load.{Loaded, load}
use open_carbon.App.Input.{input_update}
use open_carbon.App.State.{
  title_count, App, AppState, main_menu, credits, artwork, in_game, pause, submenu6, exit_to_menu,
  reset_game, unhandled11, unhandled12, options13, launch_game, return_to_menu, Host, Round,
  GameEntry,
}
use open_carbon.App.Valid.{is_valid, state_fits, has_cart, all_valid}
use open_carbon.App.Valid.Paused.{is_paused, pause_input-valid}
use open_carbon.App.Keys.{gb_input, gba_input, open_pause, shoulder}
use open_carbon.App.Update.{
  game_input, exit_game, back_to_menu, load_title, start_game, launch_input, update_state,
  update_input, find_title,
}
use open_carbon.App.Menu.{
  menu_input, menu_accept, artwork_input, artwork_ui, artwork_leave, artwork_turn,
}

module _ (titles : ℕ) (a : App) (h : is_valid titles a ≡ true) where
  pub menu_accept-valid : is_valid titles (menu_accept a) ≡ true
  unfolding menu_accept is_valid state_fits
  menu_accept-valid = ground arith

  pub artwork_ui-valid : (p r : ℕ) → is_valid titles (artwork_ui p r a) ≡ true
  unfolding artwork_ui is_valid
  artwork_ui-valid p r = ground arith

  pub artwork_leave-valid : (p : ℕ) → is_valid titles (artwork_leave p a) ≡ true
  unfolding artwork_leave is_valid state_fits
  artwork_leave-valid p = ground arith

  pub artwork_turn-valid : (p : ℕ) → is_valid titles (artwork_turn p a) ≡ true
  unfolding artwork_turn is_valid
  artwork_turn-valid p = ground arith

  pub menu_input-valid : a.state ≡ main_menu → is_valid titles (menu_input titles a) ≡ true
  unfolding menu_input is_valid state_fits
  menu_input-valid m = ground (arith, m, menu_accept-valid)

  pub gb_input-valid : has_cart a.current ≡ true → is_valid titles (gb_input a) ≡ true
  unfolding gb_input open_pause shoulder is_valid state_fits
  gb_input-valid c = ground arith

  pub gba_input-valid : has_cart a.current ≡ true → is_valid titles (gba_input a) ≡ true
  unfolding gba_input is_valid state_fits
  gba_input-valid c = ground arith

  pub game_input-valid :
      (current : Option Loaded)
      → a.current ≡ current
      → all_valid titles (game_input current a) ≡ true
  unfolding game_input all_valid
  game_input-valid none e = refl
  game_input-valid (some cart) e =
      let running : has_cart a.current ≡ true = ap has_cart e in
      ground (arith, gb_input-valid running, gba_input-valid running, h)

  pub exit_game-valid : (current : Option Loaded) → all_valid titles (exit_game current a) ≡ true
  unfolding exit_game back_to_menu is_valid all_valid state_fits
  exit_game-valid none = refl
  exit_game-valid (some cart) = ground arith

  pub load_title-valid :
      (host : Host) (e : Option GameEntry) → all_valid titles (load_title host e a) ≡ true
  unfolding load_title is_valid all_valid state_fits
  load_title-valid host none = h
  load_title-valid host (some e) =
      elim (Option-cases (load host.past host.files host.clock a.system.machine e.rom_name)) [
        | inl n ↦ rw (n) refl
        | inr (r, s) ↦ rw (s) (ground arith)
      ]

  pub start_game-valid :
      (host : Host) (current : Option Loaded) → all_valid titles (start_game host current a) ≡ true
  unfolding start_game is_valid all_valid
  start_game-valid host none = refl
  start_game-valid host (some cart) = ground arith

pub bind-valid :
    (titles : ℕ) (f : App → Option App)
    → ((a : App) → is_valid titles a ≡ true → all_valid titles (f a) ≡ true)
    → (o : Option App) → all_valid titles o ≡ true
    → all_valid titles (Option.bind o f) ≡ true
unfolding all_valid Option.bind
bind-valid titles f keep none h = refl
bind-valid titles f keep (some a) h = keep a h

pub if-valid :
    (titles : ℕ) (t : Bool) (x y : Option App)
    → all_valid titles x ≡ true
    → all_valid titles y ≡ true
    → all_valid titles (if t then x else y) ≡ true
if-valid titles true x y h k = h
if-valid titles false x y h k = k

-- What the state relies on.
pub state_fits-at :
    (titles : ℕ) (a : App) (st : AppState)
    → is_valid titles a ≡ true
    → a.state ≡ st
    → state_fits st a.menus.menu_selection a.current ≡ true
unfolding is_valid
state_fits-at titles a st h e = ground (arith, e)

module _ (host : Host) where
  pub launch_input-valid :
      (titles : ℕ) (a : App)
      → is_valid titles a ≡ true
      → all_valid titles (launch_input host a) ≡ true
  unfolding launch_input all_valid
  launch_input-valid titles a h =
      if-valid titles a.scene.transition_active (some a)
        (Option.bind (load_title host (find_title a.menus.menu_selection host.titles) a)
          (λ b. start_game host b.current b))
        h
        (bind-valid titles (λ b. start_game host b.current b)
          (λ b k. start_game-valid titles b k host b.current)
          (load_title host (find_title a.menus.menu_selection host.titles) a)
          (load_title-valid titles a h host (find_title a.menus.menu_selection host.titles)))

  pub update_state-valid :
      (stamp : List ℕ) (st : AppState) (a : App)
      → a.state ≡ st
      → is_valid (title_count host) a ≡ true
      → all_valid (title_count host) (update_state host stamp st a) ≡ true
  unfolding update_state all_valid artwork_input is_paused is_valid state_fits
  update_state-valid stamp main_menu a e h = menu_input-valid (title_count host) a h e
  update_state-valid stamp credits a e h = ground arith
  update_state-valid stamp artwork a e h =
      let t = (title_count host) in
      let p = a.input.pressed in
      let ui = artwork_ui p a.input.released a in
      artwork_turn-valid t (artwork_leave p ui)
        (artwork_leave-valid t ui (artwork_ui-valid t a h p a.input.released) p) p
  update_state-valid stamp in_game a e h = game_input-valid (title_count host) a h a.current refl
  update_state-valid stamp pause a e h =
      pause_input-valid (title_count host) stamp a
        (let running = state_fits-at (title_count host) a pause h e in ground arith)
  update_state-valid stamp submenu6 a e h =
      let never = state_fits-at (title_count host) a submenu6 h e in absurd (false≢true never)
  update_state-valid stamp exit_to_menu a e h = exit_game-valid (title_count host) a h a.current
  update_state-valid stamp reset_game a e h =
      let never = state_fits-at (title_count host) a reset_game h e in absurd (false≢true never)
  update_state-valid stamp unhandled11 a e h = h
  update_state-valid stamp unhandled12 a e h = h
  update_state-valid stamp options13 a e h =
      let never = state_fits-at (title_count host) a options13 h e in absurd (false≢true never)
  update_state-valid stamp launch_game a e h = launch_input-valid (title_count host) a h
  update_state-valid stamp return_to_menu a e h =
      let never = state_fits-at (title_count host) a return_to_menu h e in absurd (false≢true never)

  pub update_input-valid :
      (r : Round) (a : App)
      → is_valid (title_count host) a ≡ true
      → all_valid (title_count host) (update_input host r a) ≡ true
  unfolding update_input is_valid
  update_input-valid r a h =
      update_state-valid r.stamp a.state (record a { input = input_update a.input r.pad }) refl h
