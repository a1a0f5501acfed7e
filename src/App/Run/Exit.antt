-- ===== src/App/Run/Exit.antt =====
-- `App::CloseGameOnExitRequest` of carbon-pc/src/app/App.cpp and the slots of the save states.
use open_carbon.Base.{ℕ, ◌<◌, Option, none, some, ltb, ◌≡◌, inl, inr, refl, arith, List, Bool-cases}
use open_carbon.Cart.Load.{Loaded}
use open_carbon.System.Frame.{System}
use open_carbon.System.SaveFile.{load_state}
use open_carbon.System.SaveFile.Restore.{load_state-save_state_other}
use open_carbon.App.State.{App}
use open_carbon.App.Run.{close_game}

-- The automatic save at the exit request leaves what each of the three slots of every game loads.
pub close_game-slots :
    (stamp title : List ℕ) (slot game : ℕ) (a : App) (t : System)
    → slot < 3
    → load_state title slot game (close_game stamp a.current a).disk t
      ≡ load_state title slot game a.disk t
unfolding close_game
close_game-slots stamp title slot game a t l = go a.current
  where
    go :
        (current : Option Loaded)
        → load_state title slot game (close_game stamp current a).disk t
          ≡ load_state title slot game a.disk t
    go none = refl
    go (some cart) = elim (Bool-cases (ltb cart.system_type 2)) [
      | inl e ↦ rw (e) (
          load_state-save_state_other stamp cart.title title 4 slot 0 game a.system t a.disk
            (inl (λ same. absurd (omega arith))))
      | inr e ↦ rw (e) refl
    ]
