-- ===== src/App/Valid/Running.antt =====
-- `App::UpdateInput` of carbon-pc/src/app/App.cpp goes on in every round.
use mathlib.Core.Option
use mathlib.Core.Bool.{false≢true}
use open_carbon.Base.{
  ℕ, ◌<◌, Option, none, some, Bool, true, false, ◌==◌, ◌≡◌, refl, arith, if◌then◌else◌, List,
  ltb→lt,
}
use open_carbon.State.{Machine}
use open_carbon.Cart.Load.{Loaded, load}
use open_carbon.System.Frame.{Stereo}
use open_carbon.App.Input.{has, cb_a, cb_b, any_left, input_update}
use open_carbon.App.State.{
  title_count, App, AppState, main_menu, credits, artwork, in_game, pause, submenu6, exit_to_menu,
  reset_game, unhandled11, unhandled12, options13, launch_game, return_to_menu, Host, Round,
  GameEntry,
}
use open_carbon.App.Pause.{
  pause_accept, pause_act, pause_input, pause_move, pause_right, with_title, release_keys,
}
use open_carbon.App.Update.{
  update_state, update_input, find_title, load_title, start_game, launch_input, game_input,
  exit_game,
}
use open_carbon.App.Run.{Reached}
use open_carbon.App.Valid.{is_valid, state_fits, has_cart}
use open_carbon.App.Valid.Paused.{is_paused, pause_move-paused, pause_right-paused}
use open_carbon.App.Valid.Rounds.{state_fits-at}
use open_carbon.App.Valid.Reached.{Reached-valid}

-- The two titles that the menu is written for are in the game definition, and their files load.
pub record Launches (host : Host) : Type 0 where
  pub title : ℕ → GameEntry
  pub found : (s : ℕ) → s < 2 → find_title s host.titles ≡ some (title s)
  pub cart : ℕ → Machine → Machine × Loaded
  pub loads :
      (s : ℕ)
      → s < 2
      → (m : Machine) → load host.past host.files host.clock m (title s).rom_name ≡ some (cart s m)

abbrev pub goes_on : Option App → Bool
goes_on none = false
goes_on (some a) = true

pub goes_on_result : (o : Option App) → goes_on o ≡ true → (b : App) × (o ≡ some b)
goes_on_result none h = absurd (false≢true h)
goes_on_result (some b) h = (b, refl)

pub with_title-goes_on :
    (current : Option Loaded) (f : List ℕ → App)
    → has_cart current ≡ true
    → goes_on (with_title current f) ≡ true
unfolding with_title
with_title-goes_on none f h = absurd (false≢true h)
with_title-goes_on (some cart) f h = refl

pub map-goes_on :
    (f : App → App) (o : Option App) → goes_on o ≡ true → goes_on (Option.map f o) ≡ true
map-goes_on f none h = h
map-goes_on f (some a) h = refl

pub if-goes_on :
    (t : Bool) (x y : Option App)
    → goes_on x ≡ true
    → goes_on y ≡ true
    → goes_on (if t then x else y) ≡ true
if-goes_on true x y h k = h
if-goes_on false x y h k = k

pub pause_accept-goes_on :
    (stamp : List ℕ) (a : App) → has_cart a.current ≡ true → goes_on (pause_accept stamp a) ≡ true
unfolding pause_accept
pause_accept-goes_on stamp a h = if-goes_on (a.sub == 1) _ _ (with_title-goes_on a.current _ h) (
    if-goes_on (a.sub == 2) _ _ refl (
      if-goes_on (a.sub == 3) _ _ (with_title-goes_on a.current _ h)
        (if-goes_on (a.sub == 4) _ _ (with_title-goes_on a.current _ h) refl)))

pub pause_act-goes_on :
    (stamp : List ℕ) (p : ℕ) (a : App)
    → has_cart a.current ≡ true
    → goes_on (pause_act stamp p a) ≡ true
unfolding pause_act
pause_act-goes_on stamp p a h = if-goes_on (has p any_left) _ _ refl (
    if-goes_on (has p cb_a) _ _
      (map-goes_on release_keys (pause_accept stamp a) (pause_accept-goes_on stamp a h))
      (if-goes_on (has p cb_b) _ _ refl refl))

pub pause_input-goes_on :
    (titles : ℕ) (stamp : List ℕ) (a : App)
    → is_paused titles a ≡ true
    → goes_on (pause_input stamp a) ≡ true
unfolding pause_input is_paused
pause_input-goes_on titles stamp a h =
    let p = a.input.pressed in
    let moved = pause_right-paused titles (pause_move p a) (pause_move-paused titles a h p) p in
    pause_act-goes_on stamp p (pause_right p (pause_move p a)) (ground (arith, moved))

pub game_input-goes_on :
    (current : Option Loaded) (a : App)
    → has_cart current ≡ true
    → goes_on (game_input current a) ≡ true
unfolding game_input
game_input-goes_on none a h = absurd (false≢true h)
game_input-goes_on (some cart) a h = refl

pub exit_game-goes_on :
    (current : Option Loaded) (a : App)
    → has_cart current ≡ true
    → goes_on (exit_game current a) ≡ true
unfolding exit_game
exit_game-goes_on none a h = absurd (false≢true h)
exit_game-goes_on (some cart) a h = refl

module _ (host : Host) (l : Launches host) where
  pub launch_input-goes_on :
      (a : App) → a.menus.menu_selection < 2 → goes_on (launch_input host a) ≡ true
  unfolding launch_input load_title start_game Option.bind
  launch_input-goes_on a h =
      let s = a.menus.menu_selection in
      if-goes_on a.scene.transition_active (some a) _ refl
        (rw (l.found s h, l.loads s h a.system.machine) refl)

  pub update_state-goes_on :
      (stamp : List ℕ) (st : AppState) (a : App)
      → a.state ≡ st
      → is_valid (title_count host) a ≡ true
      → goes_on (update_state host stamp st a) ≡ true
  unfolding update_state state_fits is_paused is_valid
  update_state-goes_on stamp main_menu a e h = refl
  update_state-goes_on stamp credits a e h = refl
  update_state-goes_on stamp artwork a e h = refl
  update_state-goes_on stamp in_game a e h =
      game_input-goes_on a.current a (state_fits-at (title_count host) a in_game h e)
  update_state-goes_on stamp pause a e h =
      pause_input-goes_on (title_count host) stamp a
        (let running = state_fits-at (title_count host) a pause h e in ground arith)
  update_state-goes_on stamp submenu6 a e h = refl
  update_state-goes_on stamp exit_to_menu a e h =
      exit_game-goes_on a.current a (state_fits-at (title_count host) a exit_to_menu h e)
  update_state-goes_on stamp reset_game a e h =
      absurd (false≢true (state_fits-at (title_count host) a reset_game h e))
  update_state-goes_on stamp unhandled11 a e h = refl
  update_state-goes_on stamp unhandled12 a e h = refl
  update_state-goes_on stamp options13 a e h = refl
  update_state-goes_on stamp launch_game a e h =
      launch_input-goes_on a
        (ltb→lt a.menus.menu_selection 2 (state_fits-at (title_count host) a launch_game h e))
  update_state-goes_on stamp return_to_menu a e h = refl

  pub update_input-goes_on :
      (r : Round) (a : App)
      → is_valid (title_count host) a ≡ true
      → (b : App) × (update_input host r a ≡ some b)
  unfolding update_input is_valid
  update_input-goes_on r a h = goes_on_result (update_input host r a) (
      update_state-goes_on r.stamp a.state (record a { input = input_update a.input r.pad }) refl h)

  -- The input handler never reads a missing cartridge and never gives up, in any round that the loop
  -- reaches, if the game definition has the titles 0 and 1 and their files load.
  pub Reached-goes_on :
      (stereo : Stereo) (fuel : ℕ) (r : Round) {a : App}
      → Reached host stereo fuel a
      → (b : App) × (update_input host r a ≡ some b)
  Reached-goes_on stereo fuel r {a} reached =
      update_input-goes_on r a (Reached-valid host stereo fuel reached)
