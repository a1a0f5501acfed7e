-- ===== src/App/Valid/Paused.antt =====
-- The pause menu keeps `is_valid`.
use mathlib.Core.Option
use open_carbon.Base.{
  ℕ, Option, none, some, Bool, true, ◌&&◌, ◌==◌, ◌≡◌, refl, arith, List, Bool-cases, inl, inr,
}
use open_carbon.Cart.Load.{Loaded}
use open_carbon.App.Input.{has, cb_a, cb_b, any_left}
use open_carbon.App.State.{App}
use open_carbon.App.Valid.{is_valid, state_fits, has_cart, all_valid}
use open_carbon.App.Pause.{
  pause_up, pause_down, pause_move, pause_right, pause_left, pause_option, resume, pause_back,
  pause_accept, with_title, load_slot, save_slot, release_keys, pause_act, pause_input,
}

-- With the cartridge that the menu relies on.
unfoldable pub is_paused : ℕ → App → Bool
is_paused titles a = has_cart a.current && is_valid titles a

pub is_paused-valid : (titles : ℕ) (a : App) → is_paused titles a ≡ true → is_valid titles a ≡ true
unfolding is_paused
is_paused-valid titles a h = ground arith

pub with_title-valid :
    (titles : ℕ) (current : Option Loaded) (f : List ℕ → App)
    → ((title : List ℕ) → is_valid titles (f title) ≡ true)
    → all_valid titles (with_title current f) ≡ true
unfolding with_title all_valid
with_title-valid titles none f valid = refl
with_title-valid titles (some cart) f valid = valid cart.title

pub map-valid :
    (titles : ℕ) (f : App → App)
    → ((a : App) → is_valid titles a ≡ true → is_valid titles (f a) ≡ true)
    → (o : Option App) → all_valid titles o ≡ true
    → all_valid titles (Option.map f o) ≡ true
unfolding all_valid
map-valid titles f keep none h = refl
map-valid titles f keep (some a) h = keep a h

module _ (titles : ℕ) (a : App) (h : is_paused titles a ≡ true) where
  pub pause_move-paused : (p : ℕ) → is_paused titles (pause_move p a) ≡ true
  unfolding pause_move pause_up pause_down is_valid is_paused
  pause_move-paused p = ground arith

  pub pause_right-paused : (p : ℕ) → is_paused titles (pause_right p a) ≡ true
  unfolding pause_right is_valid is_paused
  pause_right-paused p = ground arith

  pub pause_left-valid : is_valid titles (pause_left a) ≡ true
  unfolding pause_left is_valid is_paused
  pause_left-valid = ground arith

  pub pause_option-valid : is_valid titles (pause_option a) ≡ true
  unfolding pause_option resume is_valid state_fits is_paused
  pause_option-valid = ground arith

  pub pause_back-valid : is_valid titles (pause_back a) ≡ true
  unfolding pause_back resume is_valid is_paused
  pause_back-valid = ground arith

  pub load_slot-valid : (title : List ℕ) → is_valid titles (load_slot a title) ≡ true
  unfolding load_slot is_valid is_paused
  load_slot-valid title = ground arith

  pub pause_accept-valid : (stamp : List ℕ) → all_valid titles (pause_accept stamp a) ≡ true
  unfolding pause_accept is_paused load_slot save_slot resume is_valid all_valid
  pause_accept-valid stamp = elim (Bool-cases (a.sub == 1)) [
    | inl e ↦ rw (e) (with_title-valid titles a.current _ (λ title. ground arith))
    | inr n1 ↦ elim (Bool-cases (a.sub == 2)) [
      | inl e ↦ rw (n1, e) (ground arith)
      | inr n2 ↦ elim (Bool-cases (a.sub == 3)) [
        | inl e ↦ rw (n1, n2, e) (with_title-valid titles a.current _ (λ title. ground arith))
        | inr n3 ↦ elim (Bool-cases (a.sub == 4)) [
          | inl e ↦ rw (n1, n2, n3, e) (with_title-valid titles a.current _ (λ title. ground arith))
          | inr n4 ↦ rw (n1, n2, n3, n4) pause_option-valid
        ]
      ]
    ]
  ]

  pub pause_act-valid : (stamp : List ℕ) (p : ℕ) → all_valid titles (pause_act stamp p a) ≡ true
  unfolding pause_act release_keys all_valid is_valid
  pause_act-valid stamp p = elim (Bool-cases (has p any_left)) [
    | inl e ↦ rw (e) pause_left-valid
    | inr l ↦ elim (Bool-cases (has p cb_a)) [
      | inl e ↦
          rw (l, e)
            (map-valid titles release_keys (λ b k. k) (pause_accept stamp a)
              (pause_accept-valid stamp))
      | inr n ↦ elim (Bool-cases (has p cb_b)) [
        | inl e ↦ rw (l, n, e) pause_back-valid
        | inr m ↦ rw (l, n, m) (is_paused-valid titles a h)
      ]
    ]
  ]

pub pause_input-valid :
    (titles : ℕ) (stamp : List ℕ) (a : App)
    → is_paused titles a ≡ true
    → all_valid titles (pause_input stamp a) ≡ true
unfolding pause_input
pause_input-valid titles stamp a h =
    let p = a.input.pressed in
    pause_act-valid titles (pause_right p (pause_move p a))
      (pause_right-paused titles (pause_move p a) (pause_move-paused titles a h p) p) stamp p
