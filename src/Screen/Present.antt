-- ===== src/Screen/Present.antt =====
-- `PresentGB` and `PresentGBA` of carbon-pc/src/app/Renderer.cpp.
use open_carbon.Base.{ℕ, List, [], ◌∷◌, ◌++◌, Bool, false, not, ◌==◌, ◌&&◌, leb, ltb, if◌then◌else◌}
use open_carbon.Screen.{
  Floats, Colour, pos, named, Size, size, Shader, sprite_shader, lcd_shader, Draw, sprite, upload,
  Look, full_screen, white, each,
}

-- The emulator's picture through one of the filters.
abbrev pub picture : Shader → ℕ → ℕ → Size → Colour → List Draw
picture shader x y extent tint =
    upload (named "GBFrameBuffer") 160 144 false
    ∷ sprite shader (named "GBFrameBuffer") (pos x) (pos y) extent tint
    ∷ []

-- The switch over `filter`.
unfoldable pub filtered : ℕ → Colour → List Draw
filtered filter tint =
    if filter == 2
    then picture sprite_shader 320 72 (size 640 576) tint
    else if filter == 1
    then picture lcd_shader 225 0 (size 800 720) tint
    else if filter == 0
    then picture sprite_shader 225 0 (size 800 720) tint
    else []

module _ (fl : Floats) where
  -- The hint fades in the last of its frames.
  unfoldable pub fade_hint : ℕ → Look → Look
  fade_hint frames l =
      let zero_float = fl.ratio 0 1 in
      let down = λ (c : ℕ). fl.minus c (fl.ratio 4 100) in
      let faded =
        each fl (λ c. if fl.less (down c) zero_float then zero_float else down c) l.hint_fade in
      if ltb frames 540 then l else record l { hint_fade = faded; hint_color = faded }

  -- `frame_count` is an `int32_t` that is not negative.
  unfoldable pub present_gb : Bool → ℕ → ℕ → Colour → Look → Look × List Draw
  unfolding filtered fade_hint
  present_gb paused frames filter tint l =
      let hinted = not paused && ltb frames 600 in
      let l' = if hinted then fade_hint frames l else l in
      (
        l',
        (if hinted
              then sprite sprite_shader (named "PauseMenuText") (pos 1080) (pos 660) (size 147 52)
                  l'.hint_color
                ∷ []
              else [])
            ++ (if leb frames 60 then [] else filtered filter tint),
      )

  unfoldable pub present_gba : ℕ → ℕ → List Draw
  present_gba filter background =
      (upload (named "GBAFrameBuffer") 256 160 (not (filter == 0)) ∷ [])
      ++ (if background == 0
          then []
          else sprite sprite_shader (named "GameBackground") (pos 0) (pos 0) full_screen (white fl)
            ∷ [])
