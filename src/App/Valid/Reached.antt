-- ===== src/App/Valid/Reached.antt =====
-- What holds in every round of `App::Run` of carbon-pc/src/app/App.cpp.
use mathlib.Core.Option
use open_carbon.Base.{ℕ, Option, none, some, true, ltb, ◌≡◌, refl, arith, sym, ◌∙◌, ap}
use open_carbon.System.Frame.{System, Stereo, run_frame}
use open_carbon.App.State.{
  title_count, App, AppState, main_menu, credits, artwork, in_game, pause, submenu6, exit_to_menu,
  reset_game, unhandled11, unhandled12, options13, launch_game, return_to_menu, Host, Round,
}
use open_carbon.App.Update.{update_input}
use open_carbon.App.Run.{
  Drawing, draw, draw_game, draw_pause, drawn_type, run_round, Reached, start, round, app_init,
}
use open_carbon.App.Valid.{is_valid, state_fits, has_cart, all_valid}
use open_carbon.App.Valid.Rounds.{update_input-valid, state_fits-at, bind-valid, if-valid}

pub map-valid_system :
    (titles : ℕ) (f : System → App) (o : Option System)
    → ((s : System) → is_valid titles (f s) ≡ true)
    → all_valid titles (Option.map f o) ≡ true
unfolding all_valid
map-valid_system titles f none h = refl
map-valid_system titles f (some s) h = h s

module _ (host : Host) (stereo : Stereo) (fuel : ℕ) where
  pub draw_game-valid :
      (titles : ℕ) (a : App)
      → is_valid titles a ≡ true
      → all_valid titles (draw_game host stereo fuel a) ≡ true
  unfolding draw_game is_valid all_valid
  draw_game-valid titles a h =
      if-valid titles (ltb (drawn_type a.current) 2)
        (Option.map (λ s. record a { system = s }) (run_frame stereo fuel a.system)) (some a)
        (map-valid_system titles (λ s. record a { system = s }) (run_frame stereo fuel a.system)
          (λ s. h))
        h

  pub draw_pause-valid :
      (titles : ℕ) (d : Drawing) (a : App)
      → has_cart a.current ≡ true
      → is_valid titles a ≡ true
      → is_valid titles (draw_pause d a) ≡ true
  unfolding draw_pause is_valid state_fits
  draw_pause-valid titles d a c h = ground arith

  pub draw-valid :
      (titles : ℕ) (d : Drawing) (st : AppState) (a : App)
      → a.state ≡ st
      → is_valid titles a ≡ true
      → all_valid titles (draw host stereo fuel d st a) ≡ true
  unfolding draw is_valid all_valid state_fits
  draw-valid titles d main_menu a e h = h
  draw-valid titles d credits a e h = h
  draw-valid titles d artwork a e h = h
  draw-valid titles d in_game a e h = draw_game-valid titles a h
  draw-valid titles d pause a e h = draw_pause-valid titles d a (state_fits-at titles a pause h e) h
  draw-valid titles d submenu6 a e h = h
  draw-valid titles d exit_to_menu a e h = h
  draw-valid titles d reset_game a e h = h
  draw-valid titles d unhandled11 a e h = h
  draw-valid titles d unhandled12 a e h = h
  draw-valid titles d options13 a e h = h
  draw-valid titles d launch_game a e h = ground arith
  draw-valid titles d return_to_menu a e h = ground arith

  pub run_round-valid :
      (r : Round) (d : Drawing) (a : App)
      → is_valid (title_count host) a ≡ true
      → all_valid (title_count host) (run_round host stereo fuel r d a) ≡ true
  unfolding run_round
  run_round-valid r d a h =
      bind-valid (title_count host) (λ b. draw host stereo fuel d b.state b)
        (λ b k. draw-valid (title_count host) d b.state b refl k) (update_input host r a)
        (update_input-valid host r a h)

  -- The selections of the menus stay on their entries, a list of slots has one of the three slots selected,
  -- the game runs or is paused only with a cartridge, and the states that the code calls unreachable are never entered.
  pub Reached-valid : {a : App} → Reached host stereo fuel a → is_valid (title_count host) a ≡ true
  unfolding is_valid state_fits app_init all_valid
  Reached-valid (start system disk slots pad) = ground arith
  Reached-valid (round {a} {b} r d before e) =
      ap (all_valid (title_count host)) (sym e) ∙ run_round-valid r d a (Reached-valid before)
