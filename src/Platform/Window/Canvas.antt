-- ===== src/Platform/Window/Canvas.antt =====
-- Where the picture stands in the window: `LetterboxedCanvas` and `ReadCanvas` of
-- carbon-pc/src/platform/win32/Platform_win32.cpp.
use open_carbon.Base.{
  ℕ, ◌+◌, ◌-◌, ◌*◌, ◌/◌, ◌%◌, ◌≤◌, ◌<◌, ◌≡◌, ◌⊎◌, inl, inr, refl, ap, ◌∙◌, lt→ltb, arith, ltb,
  Bytes, Bool-cases,
}
use open_carbon.Platform.Window.{CanvasRect, centred, letterboxed_canvas, opaque, read_canvas}

-- A picture of 16 to 9 in a window: it lies in it, in the middle to the pixel, reaches two opposite
-- sides, and is less than a pixel of the ratio off.
pub record Fits (cw ch : ℕ) (r : CanvasRect) : Type 0 where
  pub wide : r.x + r.w ≤ cw
  pub high : r.y + r.h ≤ ch
  pub middle_x : (cw ≤ 2 * r.x + r.w + 1) × (2 * r.x + r.w ≤ cw)
  pub middle_y : (ch ≤ 2 * r.y + r.h + 1) × (2 * r.y + r.h ≤ ch)
  pub touches : (r.w ≡ cw) ⊎ (r.h ≡ ch)
  pub ratio : (r.w * 9 < (r.h + 1) * 16) × (r.h * 16 < (r.w + 1) * 9)

centred-Fits :
    (cw ch w h : ℕ)
    → w ≤ cw
    → h ≤ ch
    → (w ≡ cw) ⊎ (h ≡ ch)
    → (w * 9 < (h + 1) * 16) × (h * 16 < (w + 1) * 9)
    → Fits cw ch (centred cw ch w h)
centred-Fits cw ch w h wide high touch ratio = record {
  wide = omega arith;
  high = omega arith;
  middle_x = (omega arith, omega arith);
  middle_y = (omega arith, omega arith);
  touches = touch;
  ratio = ratio;
}

-- Whatever the size of the window, the picture lies in it as large as its ratio allows, in the middle.
pub letterboxed_canvas-Fits : (cw ch : ℕ) → Fits cw ch (letterboxed_canvas cw ch)
unfolding letterboxed_canvas
letterboxed_canvas-Fits cw ch = elim (Bool-cases (ltb ch (cw * 720 / 1280))) [
  | inl tall ↦
      let over : ch < cw * 720 / 1280 = ground arith in
      rw tall (
        centred-Fits cw ch (ch * 1280 / 720) ch (omega arith) (omega arith) (inr refl)
          (omega arith, omega arith))
  | inr flat ↦
      let within : cw * 720 / 1280 ≤ ch = ground arith in
      rw flat (
        centred-Fits cw ch cw (cw * 720 / 1280) (omega arith) within (inl refl)
          (omega arith, omega arith))
]

opaque-colour : (pixels : Bytes) (j : ℕ) → j % 4 < 3 → opaque pixels j ≡ pixels j
unfolding opaque
opaque-colour pixels j h = ground arith

read_canvas-inside :
    (pixels : Bytes) (i : ℕ)
    → i < 720 * 5120
    → read_canvas pixels i ≡ opaque pixels ((719 - i / 5120) * 5120 + i % 5120)
unfolding read_canvas
read_canvas-inside pixels i h = rw (lt→ltb i (720 * 5120) h) refl

-- The picture that is read is the screen's with its lowest row last, and opaque: a colour of the
-- pixel `x` in the row `y` from the top is the one in the row 719 - `y` from the bottom.
pub read_canvas-row :
    (pixels : Bytes) (x y c : ℕ)
    → x < 1280
    → y < 720
    → c < 3
    → read_canvas pixels (y * 5120 + x * 4 + c) ≡ pixels ((719 - y) * 5120 + x * 4 + c)
read_canvas-row pixels x y c h k l =
    let i : ℕ = y * 5120 + x * 4 + c in
    let place : (719 - i / 5120) * 5120 + i % 5120 ≡ (719 - y) * 5120 + x * 4 + c = omega arith in
    read_canvas-inside pixels i (omega arith)
    ∙ (ap (opaque pixels) place ∙ opaque-colour pixels _ (omega arith))
