-- ===== src/Screen/Artwork/Faded.antt =====
-- What rounds of `artwork::Draw` of carbon-pc/src/app/Artwork.cpp leave.
use open_carbon.Base.{
  ℕ, zero, suc, ◌+◌, ◌-◌, ◌≡◌, refl, ap, ◌∙◌, arith, List, [], ◌∷◌, true, false, Bool-cases, inl,
  inr, length, min, ltb, ◌==◌, if◌then◌else◌,
}
use open_carbon.App.Input.{Sticks}
use open_carbon.App.State.{Scene}
use open_carbon.Screen.{Floats, Colour}
use open_carbon.Screen.Artwork.{
  Pictures, Artwork, darker, brighter, fade_ui, moved, zoomed, draw_artwork,
}

-- The same change `n` times.
abbrev times : ℕ → (Colour → Colour) → Colour → Colour
times zero f c = c
times (suc n) f c = times n f (f c)

times-count : (n k : ℕ) (f : Colour → Colour) (c : Colour) → n ≡ k → times n f c ≡ times k f c
times-count n k f c same = ap (λ j. times j f c) same

module _ (fl : Floats) where
  -- The width stays between the two limits of the zoom.
  zoomed-between :
      (byte width : ℕ)
      → ((x : ℕ) → fl.less x x ≡ false)
      → fl.less (fl.ratio 2200 1) (fl.ratio 600 1) ≡ false
      → (fl.less (zoomed fl byte width) (fl.ratio 600 1) ≡ false)
        × (fl.less (fl.ratio 2200 1) (zoomed fl byte width) ≡ false)
  unfolding zoomed
  zoomed-between byte width irreflexive order =
      ground (arith, irreflexive (fl.ratio 2200 1), irreflexive (fl.ratio 600 1), order)

  -- The fade of one round and of `n` rounds, from a count of the rounds on.
  abbrev round : ℕ → ℕ → Colour → Colour
  round visible timer c =
      if visible == 0
      then (if ltb 4 timer then darker fl c else c)
      else if ltb timer 10
      then brighter fl c
      else c

  abbrev rounds : ℕ → ℕ → ℕ → Colour → Colour
  rounds visible zero timer c = c
  rounds visible (suc n) timer c = rounds visible n (timer + 1) (round visible timer c)

  rounds-shown :
      (visible n timer : ℕ) (c : Colour)
      → (visible == 0) ≡ false
      → rounds visible n timer c ≡ times (min n (10 - timer)) (brighter fl) c
  rounds-shown visible zero timer c on =
      times-count 0 (min 0 (10 - timer)) (brighter fl) c (omega arith)
  rounds-shown visible (suc n) timer c on = elim (Bool-cases (ltb timer 10)) [
    | inl early ↦
        rw (on, early)
          (rounds-shown visible n (timer + 1) (brighter fl c) on
            ∙ times-count (suc (min n (10 - (timer + 1)))) (min (suc n) (10 - timer)) (brighter fl)
                c (ground (arith, early)))
    | inr late ↦
        rw (on, late)
          (rounds-shown visible n (timer + 1) c on
            ∙ times-count (min n (10 - (timer + 1))) (min (suc n) (10 - timer)) (brighter fl) c
                (ground (arith, late)))
  ]

  rounds-hidden :
      (visible n timer : ℕ) (c : Colour)
      → (visible == 0) ≡ true
      → rounds visible n timer c ≡ times (n - (5 - timer)) (darker fl) c
  rounds-hidden visible zero timer c off =
      times-count 0 (0 - (5 - timer)) (darker fl) c (omega arith)
  rounds-hidden visible (suc n) timer c off = elim (Bool-cases (ltb 4 timer)) [
    | inl late ↦
        rw (off, late)
          (rounds-hidden visible n (timer + 1) (darker fl c) off
            ∙ times-count (suc (n - (5 - (timer + 1)))) (suc n - (5 - timer)) (darker fl) c
                (ground (arith, late)))
    | inr early ↦
        rw (off, early)
          (rounds-hidden visible n (timer + 1) c off
            ∙ times-count (n - (5 - (timer + 1))) (suc n - (5 - timer)) (darker fl) c
                (ground (arith, early)))
  ]

module _ (fl : Floats) (pictures : Pictures) where
  -- One round for every state of the sticks.
  abbrev draws : List Sticks → Scene → Artwork → Scene × Artwork
  draws [] scene a = (scene, a)
  draws (sticks ∷ rest) scene a =
      let r = (draw_artwork fl pictures sticks scene a).0 in draws rest r.0 r.1

  draw_artwork-round :
      (sticks : Sticks) (scene : Scene) (a : Artwork)
      → (draw_artwork fl pictures sticks scene a).0.1.ui_fade
        ≡ round fl scene.art_ui_visible scene.art_ui_timer a.ui_fade
  unfolding draw_artwork fade_ui moved
  draw_artwork-round sticks scene a = elim (Bool-cases (scene.art_ui_visible == 0)) [
    | inl hidden ↦ elim (Bool-cases (ltb 4 scene.art_ui_timer)) [
      | inl late ↦ rw (hidden, late) refl
      | inr early ↦ rw (hidden, early) refl
    ]
    | inr on ↦ elim (Bool-cases (ltb scene.art_ui_timer 10)) [
      | inl early ↦ rw (on, early) refl
      | inr late ↦ rw (on, late) refl
    ]
  ]

  draws-rounds :
      (all : List Sticks) (scene : Scene) (a : Artwork)
      → (draws all scene a).1.ui_fade
        ≡ rounds fl scene.art_ui_visible (length all) scene.art_ui_timer a.ui_fade
  unfolding draw_artwork
  draws-rounds [] scene a = refl
  draws-rounds (sticks ∷ rest) scene a =
      let r = (draw_artwork fl pictures sticks scene a).0 in
      draws-rounds rest r.0 r.1
      ∙ ap (rounds fl scene.art_ui_visible (length rest) (scene.art_ui_timer + 1))
          (draw_artwork-round sticks scene a)

  -- When rounds begin with the counter at 0: a shown user interface has become brighter by one step in
  -- each of the first ten of them, and a hidden one darker by one step in each but the first five.
  draw_artwork-faded :
      (all : List Sticks) (scene : Scene) (a : Artwork)
      → scene.art_ui_timer ≡ 0
      → (draws all scene a).1.ui_fade ≡ (
          if scene.art_ui_visible == 0
          then times (length all - 5) (darker fl) a.ui_fade
          else times (min (length all) 10) (brighter fl) a.ui_fade)
  draw_artwork-faded all scene a start =
      draws-rounds all scene a
      ∙ (ap (λ t. rounds fl scene.art_ui_visible (length all) t a.ui_fade) start
          ∙ elim (Bool-cases (scene.art_ui_visible == 0)) [
            | inl hidden ↦
                rw hidden (rounds-hidden fl scene.art_ui_visible (length all) 0 a.ui_fade hidden)
            | inr on ↦ rw on (rounds-shown fl scene.art_ui_visible (length all) 0 a.ui_fade on)
          ])
