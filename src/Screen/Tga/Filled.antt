-- ===== src/Screen/Tga/Filled.antt =====
-- The images that `LoadTga` of carbon-pc/src/gfx/TextRenderer.cpp hands out.
use open_carbon.Base.{
  ℕ, ◌+◌, ◌*◌, ◌/◌, ◌^◌, ◌<◌, ◌≡◌, ◌≢◌, ◌⊎◌, get_or, refl, not, ◌||◌, bit_and, ap, ◌∙◌, arith, List,
  Option, none, some, Bool, true, false, ◌==◌, Bytes, length, Bool-cases, inl, inr,
}
use open_carbon.Screen.Tga.{
  Format, no_format, gl_rgb, gl_rgba, gl_alpha, TgaImage, swap3, swap4, read_exactly, skipped,
  with_pixels, pixel_bytes, tga_header, read_tga, byte_of, bad_depth,
}
use open_carbon.Screen.Tga.Reading.{
  swap3-pixel, swap4-pixel, length-swap3, length-swap4, length-read_exactly, read_exactly-none,
  length-skipped, raw-byte,
}

-- The bytes of every pixel of an image of `n` pixels are those of the file behind its header: as they
-- are where there is one byte for a pixel, else with red and blue exchanged.
abbrev pub Pixels : List ℕ → ℕ → Format → List ℕ → Type 0
Pixels file n gl_rgb bytes =
    (p : ℕ)
    → p < n
    → (get_or bytes (3 * p) 0 ≡ get_or file (18 + (3 * p + 2)) 0)
      × (get_or bytes (3 * p + 1) 0 ≡ get_or file (18 + (3 * p + 1)) 0)
      × (get_or bytes (3 * p + 2) 0 ≡ get_or file (18 + 3 * p) 0)
Pixels file n gl_rgba bytes =
    (p : ℕ)
    → p < n
    → (get_or bytes (4 * p) 0 ≡ get_or file (18 + (4 * p + 2)) 0)
      × (get_or bytes (4 * p + 1) 0 ≡ get_or file (18 + (4 * p + 1)) 0)
      × (get_or bytes (4 * p + 2) 0 ≡ get_or file (18 + 4 * p) 0)
      × (get_or bytes (4 * p + 3) 0 ≡ get_or file (18 + (4 * p + 3)) 0)
Pixels file n gl_alpha bytes = (p : ℕ) → p < n → get_or bytes p 0 ≡ get_or file (18 + p) 0
Pixels file n no_format bytes = ⊥

abbrev pub depth_of : Format → ℕ
depth_of gl_rgb = 24
depth_of gl_rgba = 32
depth_of gl_alpha = 8
depth_of no_format = 0

module _ (past : Bytes) (has_memory : ℕ → Bool) (file : List ℕ) where
  -- Why there are no pixels: a palette, another kind of image or another depth, no memory, or a file
  -- that is too short.
  abbrev pub Unread : TgaImage → Type 0
  Unread img =
      (byte_of past file 1 ≢ 0)
      ⊎ (bit_and (byte_of past file 2) 0xfe ≢ 2)
      ⊎ ((img.bpp ≢ 8) × (img.bpp ≢ 24) × (img.bpp ≢ 32))
      ⊎ (has_memory (pixel_bytes img) ≡ false)
      ⊎ (length file < 18 + pixel_bytes img)

  abbrev pub Filled : TgaImage → Option (List ℕ) → Type 0
  Filled img none = (img.format ≡ no_format) × Unread img
  Filled img (some bytes) =
      (img.bpp ≡ depth_of img.format)
      × (length bytes ≡ img.width * img.height * (img.bpp / 8))
      × Pixels file (img.width * img.height) img.format bytes

  abbrev pub IsFilled : TgaImage → Type 0
  IsFilled img =
      (img.width ≡ byte_of past file 12 + byte_of past file 13 * 2 ^ 8)
      × (img.height ≡ byte_of past file 14 + byte_of past file 15 * 2 ^ 8)
      × (img.bpp ≡ byte_of past file 16)
      × Filled img img.data_bytes

or-false : (a b : Bool) → (a || b) ≡ false → b ≡ false
or-false true b h = ground arith
or-false false b h = h

rgb-Pixels :
    (file bytes : List ℕ) (n : ℕ)
    → length bytes ≡ n * 3
    → ((i : ℕ) → i < n * 3 → get_or bytes i 0 ≡ get_or file (18 + i) 0)
    → Pixels file n gl_rgb (swap3 bytes)
rgb-Pixels file bytes n size raw p below =
    let moved = swap3-pixel bytes p (omega (arith, size)) in
    (
      moved.0 ∙ raw (3 * p + 2) (omega arith),
      moved.1 ∙ raw (3 * p + 1) (omega arith),
      moved.2 ∙ raw (3 * p) (omega arith),
    )

rgba-Pixels :
    (file bytes : List ℕ) (n : ℕ)
    → length bytes ≡ n * 4
    → ((i : ℕ) → i < n * 4 → get_or bytes i 0 ≡ get_or file (18 + i) 0)
    → Pixels file n gl_rgba (swap4 bytes)
rgba-Pixels file bytes n size raw p below =
    let moved = swap4-pixel bytes p (omega (arith, size)) in
    (
      moved.0 ∙ raw (4 * p + 2) (omega arith),
      moved.1 ∙ raw (4 * p + 1) (omega arith),
      moved.2 ∙ raw (4 * p) (omega arith),
      moved.3 ∙ raw (4 * p + 3) (omega arith),
    )

-- The header's numbers stay.
with_pixels-header :
    (img : TgaImage) (o : Option (List ℕ))
    → ((with_pixels img o).width ≡ img.width)
      × ((with_pixels img o).height ≡ img.height)
      × ((with_pixels img o).bpp ≡ img.bpp)
unfolding with_pixels
with_pixels-header img none = (refl, refl, refl)
with_pixels-header img (some bytes) = elim (Bool-cases (img.bpp == 24)) [
  | inl rgb ↦ rw rgb (refl, refl, refl)
  | inr other ↦ elim (Bool-cases (img.bpp == 32)) [
    | inl rgba ↦ rw (other, rgba) (refl, refl, refl)
    | inr alpha ↦ rw (other, alpha) (refl, refl, refl)
  ]
]

module _ (past : Bytes) (has_memory : ℕ → Bool) (file : List ℕ) where
  with_pixels-Filled :
      (img : TgaImage) (bytes : List ℕ)
      → bad_depth img.bpp ≡ false
      → read_exactly (pixel_bytes img) (skipped 18 file) ≡ some bytes
      → Filled past has_memory file
          (with_pixels img (some bytes))
          (with_pixels img (some bytes)).data_bytes
  unfolding with_pixels
  with_pixels-Filled img bytes depth read =
      let size = length-read_exactly (pixel_bytes img) (skipped 18 file) bytes read in
      let raw = raw-byte file bytes (pixel_bytes img) read in
      let n = img.width * img.height in
      elim (Bool-cases (img.bpp == 24)) [
        | inl rgb ↦
            let deep : img.bpp ≡ 24 = ground (arith, rgb) in
            let three : n * (img.bpp / 8) ≡ n * 3 = ap (λ b. n * (b / 8)) deep in
            rw rgb (
              deep,
              length-swap3 bytes ∙ size,
              rgb-Pixels file bytes n (size ∙ three)
                  (λ i below. raw i (omega (arith, below, three))),
            )
        | inr other ↦ elim (Bool-cases (img.bpp == 32)) [
          | inl rgba ↦
              let deep : img.bpp ≡ 32 = ground (arith, rgba) in
              let four : n * (img.bpp / 8) ≡ n * 4 = ap (λ b. n * (b / 8)) deep in
              rw (other, rgba)
                (
                  deep,
                  length-swap4 bytes ∙ size,
                  rgba-Pixels file bytes n (size ∙ four)
                      (λ i below. raw i (omega (arith, below, four))),
                )
          | inr alpha ↦
              let eight : img.bpp ≡ 8 = ground (arith, other, alpha, depth) in
              let same : n * (img.bpp / 8) ≡ n * 1 = ap (λ b. n * (b / 8)) eight in
              rw (other, alpha) (eight, size, λ p below. raw p (omega (arith, below, same)))
        ]
      ]

  -- What the read of the pixels answers.
  read-Filled :
      (img : TgaImage) (o : Option (List ℕ))
      → bad_depth img.bpp ≡ false
      → img.format ≡ no_format
      → img.data_bytes ≡ none
      → read_exactly (pixel_bytes img) (skipped 18 file) ≡ o
      → Filled past has_memory file (with_pixels img o) (with_pixels img o).data_bytes
  unfolding with_pixels
  read-Filled img none depth format empty read =
      let short : length file < 18 + pixel_bytes img = omega (
        arith,
        read_exactly-none (pixel_bytes img) (skipped 18 file) read,
        length-skipped 18 file,
      ) in
      rw empty (format, inr (inr (inr (inr short))))
  read-Filled img (some bytes) depth format empty read = with_pixels-Filled img bytes depth read

  -- The conditions under which nothing is read.
  header-Unread :
      (img : TgaImage)
      → (not (byte_of past file 1 == 0)
          || not (bit_and (byte_of past file 2) 0xfe == 2)
          || bad_depth img.bpp)
        ≡ true
      → Unread past has_memory file img
  header-Unread img h = ground arith

  -- Every file that can be opened is answered with an image of the width, the height and the depth in its
  -- header. If it has pixels, they are as many bytes as these ask for, in a format of that depth: every
  -- pixel's bytes are those of the file behind the 18 bytes of the header, with red and blue exchanged
  -- where there are three or four of them. It has none, and no format, only if the header names a palette,
  -- another kind of image or another depth, if there is no memory, or if the file is too short for them.
  pub read_tga-IsFilled : IsFilled past has_memory file (read_tga past has_memory file)
  unfolding read_tga tga_header
  read_tga-IsFilled =
      let img = tga_header past file in
      let first = not (byte_of past file 1 == 0) || not (bit_and (byte_of past file 2) 0xfe == 2) in
      let read = read_exactly (pixel_bytes img) (skipped 18 file) in
      let kept = with_pixels-header img read in
      elim (Bool-cases (first || bad_depth img.bpp)) [
        | inl refused ↦ rw refused (refl, refl, refl, (refl, header-Unread img refused))
        | inr fine ↦ rw fine (elim (Bool-cases (has_memory (pixel_bytes img))) [
          | inl memory ↦ rw memory (
            kept.0,
            kept.1,
            kept.2,
            read-Filled img read (or-false first (bad_depth img.bpp) fine) refl refl refl,
          )
          | inr full ↦ rw full (refl, refl, refl, (refl, inr (inr (inr (inl full)))))
        ])
      ]
