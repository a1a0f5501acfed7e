-- ===== src/Screen/Tga.antt =====
-- `LoadTga` of carbon-pc/src/gfx/TextRenderer.cpp. A file is its bytes; what stands in the memory that
-- a short read leaves alone, and whether there is memory, are parameters.
mod Reading
pub mod Filled
use open_carbon.Base.{
  ℕ, zero, suc, ◌+◌, ◌*◌, ◌/◌, ◌^◌, List, [], ◌∷◌, Option, none, some, Bool, true, false, not, ◌==◌,
  ◌&&◌, ◌||◌, ltb, leb, if◌then◌else◌, Bytes, get_or, length, bit_and,
}

-- `TgaImage::format`: none is the initial -1.
pub data Format : Type 0 where
  no_format : Format
  gl_rgb : Format
  gl_rgba : Format
  gl_alpha : Format

pub record TgaImage : Type 0 where
  pub format : Format
  pub width : ℕ
  pub height : ℕ
  pub bpp : ℕ
  pub data_bytes : Option (List ℕ)

abbrev pub no_image : TgaImage
no_image = record { format = no_format; width = 0; height = 0; bpp = 0; data_bytes = none }

-- Red and blue of every pixel of three or four bytes.
abbrev pub swap3 : List ℕ → List ℕ
swap3 (b ∷ g ∷ r ∷ rest) = r ∷ g ∷ b ∷ swap3 rest
swap3 xs = xs

abbrev pub swap4 : List ℕ → List ℕ
swap4 (b ∷ g ∷ r ∷ a ∷ rest) = r ∷ g ∷ b ∷ a ∷ swap4 rest
swap4 xs = xs

-- The first `n` bytes; `none` if there are fewer.
abbrev pub read_exactly : ℕ → List ℕ → Option (List ℕ)
read_exactly zero xs = some []
read_exactly (suc n) [] = none
read_exactly (suc n) (x ∷ xs) = elim (read_exactly n xs) [ none ↦ none | some ys ↦ some (x ∷ ys) ]

abbrev pub skipped : ℕ → List ℕ → List ℕ
skipped zero xs = xs
skipped (suc n) [] = []
skipped (suc n) (x ∷ xs) = skipped n xs

-- The pixels and the format, from what was read.
unfoldable pub with_pixels : TgaImage → Option (List ℕ) → TgaImage
with_pixels img none = img
with_pixels img (some bytes) =
    if img.bpp == 24
    then record img { format = gl_rgb; data_bytes = some (swap3 bytes) }
    else if img.bpp == 32
    then record img { format = gl_rgba; data_bytes = some (swap4 bytes) }
    else record img { format = gl_alpha; data_bytes = some bytes }

abbrev pub pixel_bytes : TgaImage → ℕ
pixel_bytes img = img.width * img.height * (img.bpp / 8)

-- `img.bpp != 8 && img.bpp != 24 && img.bpp != 32`
abbrev pub bad_depth : ℕ → Bool
bad_depth bpp = not (bpp == 8) && not (bpp == 24) && not (bpp == 32)

module _ (past : Bytes) where
  -- A byte of the file where it is read to, or of the memory.
  abbrev pub byte_of : List ℕ → ℕ → ℕ
  byte_of file i = if ltb i (length file) then get_or file i 0 else past i

  unfoldable pub tga_header : List ℕ → TgaImage
  tga_header file = record no_image {
    width = byte_of file 12 + byte_of file 13 * 2 ^ 8;
    height = byte_of file 14 + byte_of file 15 * 2 ^ 8;
    bpp = byte_of file 16;
  }

module _ (past : Bytes) (has_memory : ℕ → Bool) where
  unfoldable pub read_tga : List ℕ → TgaImage
  unfolding tga_header with_pixels
  read_tga file =
      let img = tga_header past file in
      if not (byte_of past file 1 == 0)
        || not (bit_and (byte_of past file 2) 0xfe == 2)
        || bad_depth img.bpp
      then img
      else if has_memory (pixel_bytes img)
      then with_pixels img (read_exactly (pixel_bytes img) (skipped 18 file))
      else img

  -- The code that is returned, and the image.
  unfoldable pub load_tga : Option (List ℕ) → ℕ × TgaImage
  unfolding read_tga
  load_tga none = (2, no_image)
  load_tga (some file) = (1, read_tga file)
