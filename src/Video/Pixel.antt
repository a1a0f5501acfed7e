-- ===== src/Video/Pixel.antt =====
-- `PutPixel` and `LineStart` of carbon-pc/src/gb/Video.cpp.
use open_carbon.Base.{ℕ, ◌+◌, ◌*◌, ◌^◌, Bytes, u8, u16, bits, update}
use open_carbon.State.{Video}

-- The four bytes of a pixel. The bits that `|` joins are disjoint, so it is written as a sum.
unfoldable pub red : ℕ → ℕ
red lo = u8 (lo * 2 ^ 3) + bits lo 2 3

unfoldable pub green : ℕ → ℕ → ℕ
green lo hi = let c = u16 (lo + hi * 2 ^ 8) in bits c 5 5 * 2 ^ 3 + bits c 7 3

unfoldable pub blue : ℕ → ℕ
blue hi = bits hi 2 5 * 2 ^ 3 + bits hi 4 3

unfoldable pub put_pixel : Bytes → ℕ → ℕ → ℕ → Bytes
put_pixel framebuffer out lo hi =
    update
      (update (update (update framebuffer out (red lo)) (out + 1) (green lo hi)) (out + 2)
        (blue hi))
      (out + 3) 0xff

-- The offset of a pixel from the start of the framebuffer. `ly` is below 144 when a line is drawn.
abbrev pub pixel_offset : Video → ℕ → ℕ
pixel_offset v x = v.ly * 0x280 + x * 4
