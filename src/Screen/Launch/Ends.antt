-- ===== src/Screen/Launch/Ends.antt =====
-- The launch transition of carbon-pc/src/app/Renderer.cpp comes to its end.
use open_carbon.Base.{
  ℕ, zero, suc, ◌+◌, ◌-◌, ◌*◌, ◌/◌, ◌≤◌, ◌<◌, ◌≡◌, refl, ◌∙◌, ap, arith, true, false, ltb,
  Bool-cases, inl, inr,
}
use open_carbon.App.Definition.{GameDef}
use open_carbon.Screen.{Floats, Look}
use open_carbon.Screen.Launch.{draw_launch_transition}

-- A number of frames of the transition.
abbrev pub frames : Floats → GameDef → ℕ → Look → Look
frames fl def zero l = l
frames fl def (suc n) l = frames fl def n (draw_launch_transition fl def l).0

-- The red of the fade after a number of steps.
abbrev pub red_after : Floats → ℕ → ℕ → ℕ
red_after fl zero r = r
red_after fl (suc n) r = fl.minus (red_after fl n r) (fl.ratio 35 1000)

-- The transition is over within `k` frames.
abbrev pub EndsWithin : Floats → GameDef → ℕ → Look → Type 0
EndsWithin fl def k l = (n : ℕ) × (n ≤ k) × ((frames fl def n l).transition_active ≡ false)

module _ (fl : Floats) (def : GameDef) where
  one_more :
      (k n : ℕ) (l : Look)
      → k < n
      → EndsWithin fl def k (draw_launch_transition fl def l).0
      → EndsWithin fl def n l
  one_more k n l more (m, bound, over) = (suc m, omega arith, over)

  finished : (l : Look) → l.anim_state ≡ 3 → EndsWithin fl def 1 l
  unfolding draw_launch_transition
  finished l h = (1, omega arith, ground arith)

  -- One frame in each of the other states.
  waiting : (l : Look) → l.anim_state ≡ 2 → (draw_launch_transition fl def l).0.anim_state ≡ 3
  unfolding draw_launch_transition
  waiting l h = ground arith

  fading :
      (l : Look)
      → l.anim_state ≡ 1
      → let l' = (draw_launch_transition fl def l).0 in
        let red = red_after fl 1 l.menu_fade.r in
        (fl.less red (fl.ratio 0 1) ≡ true → l'.anim_state ≡ 2)
        × (fl.less red (fl.ratio 0 1) ≡ false → (l'.anim_state ≡ 1) × (l'.menu_fade.r ≡ red))
  unfolding draw_launch_transition
  fading l h = ground arith

  sliding :
      (l : Look)
      → l.anim_state ≡ 0
      → let l' = (draw_launch_transition fl def l).0 in
        (l'.menu_fade.r ≡ red_after fl 1 l.menu_fade.r)
        × (1400 < l.sprite_x + 36 → l'.anim_state ≡ 1)
        × (l.sprite_x + 36 ≤ 1400 → (l'.anim_state ≡ 0) × (l'.sprite_x ≡ l.sprite_x + 36))
  unfolding draw_launch_transition
  sliding l h = ground arith

  two_more : (l : Look) → (draw_launch_transition fl def l).0.anim_state ≡ 2 → EndsWithin fl def 3 l
  two_more l h =
      one_more 2 3 l (omega arith) (one_more 1 2 _ (omega arith) (finished _ (waiting _ h)))

  longer : (k n : ℕ) (l : Look) → k ≤ n → EndsWithin fl def k l → EndsWithin fl def n l
  longer k n l h (m, bound, over) = (m, omega arith, over)

  -- From here on the red falls as it fell from `r`: below zero after `limit` steps.
  module _ (r limit : ℕ)
      (falls : (k : ℕ) → limit ≤ k → fl.less (red_after fl k r) (fl.ratio 0 1) ≡ true) where
    dark :
        (d m : ℕ) (l : Look)
        → l.anim_state ≡ 1
        → l.menu_fade.r ≡ red_after fl m r
        → limit ≤ m + d
        → EndsWithin fl def (d + 3) l
    dark zero m l h red far = two_more l ((fading l h).0 (rw red (falls (suc m) (omega arith))))
    dark (suc d) m l h red far =
        elim (Bool-cases (fl.less (red_after fl 1 l.menu_fade.r) (fl.ratio 0 1))) [
          | inl below ↦ longer 3 (suc d + 3) l (omega arith) (two_more l ((fading l h).0 below))
          | inr above ↦
              let (state, next) = (fading l h).1 above in
              one_more (d + 3) (suc d + 3) l (omega arith) (
                dark d (suc m) _ state (next ∙ ap (λ x. fl.minus x (fl.ratio 35 1000)) red)
                  (omega arith))
        ]

    slid :
        (k m : ℕ) (l : Look)
        → l.anim_state ≡ 0
        → l.menu_fade.r ≡ red_after fl m r
        → 1400 < l.sprite_x + 36 * suc k
        → EndsWithin fl def (suc k + limit + 3) l
    slid zero m l h red far = one_more (limit + 3) (1 + limit + 3) l (omega arith) (
        dark limit (suc m) _ ((sliding l h).1 (omega arith))
          ((sliding l h).0 ∙ ap (λ x. fl.minus x (fl.ratio 35 1000)) red) (omega arith))
    slid (suc k) m l h red far =
        let next_red = (sliding l h).0 ∙ ap (λ x. fl.minus x (fl.ratio 35 1000)) red in
        elim (Bool-cases (ltb 1400 (l.sprite_x + 36))) [
          | inl out ↦
              one_more (limit + 3) _ l (omega arith)
                (dark limit (suc m) _ ((sliding l h).1 (ground arith)) next_red (omega arith))
          | inr in_view ↦
              let (state, x) = (sliding l h).2 (ground arith) in
              one_more (suc k + limit + 3) _ l (omega arith)
                (slid k (suc m) _ state next_red (omega arith))
        ]

  -- Started with the sprite where the menu leaves it or further out, the transition is over within as
  -- many frames as the sprite needs, the steps after which the fading red stays below zero, and three.
  pub draw_launch_transition-EndsWithin :
      (l : Look) (limit : ℕ)
      → l.anim_state ≡ 0
      → ((k : ℕ) → limit ≤ k → fl.less (red_after fl k l.menu_fade.r) (fl.ratio 0 1) ≡ true)
      → EndsWithin fl def ((1400 - l.sprite_x) / 36 + 1 + limit + 3) l
  draw_launch_transition-EndsWithin l limit h falls =
      longer _ _ l (omega arith)
        (slid l.menu_fade.r limit falls ((1400 - l.sprite_x) / 36) 0 l h refl (omega arith))
