-- ===== src/Screen/Glyphs/Lines.antt =====
-- The text of `Print` of carbon-pc/src/gfx/TextRenderer.cpp line by line.
use open_carbon.Base.{
  ℕ, ◌+◌, ◌≡◌, refl, ap, List, [], ◌∷◌, ◌++◌, some, ◌==◌, leb, u32, if◌then◌else◌, Bool-cases, inl,
  inr,
}
use open_carbon.Screen.{Floats}
use open_carbon.Screen.Glyphs.{
  FontFile, Quad, line_height, quad_of, advanced, print_from, first_line, print_text,
}

-- The lines of a text: the first, and those behind a line's end.
abbrev pub first_of : List ℕ → List ℕ
first_of [] = []
first_of (c ∷ rest) = if c == 0x0a then [] else c ∷ first_of rest

abbrev pub others_of : List ℕ → List (List ℕ)
others_of [] = []
others_of (c ∷ rest) = if c == 0x0a then first_of rest ∷ others_of rest else others_of rest

module _ (fl : Floats) (font : FontFile) where
  -- A line's glyphs, each where the advances of those before it lead.
  abbrev pub line_quads : ℕ → ℕ → List ℕ → List Quad
  line_quads pen_x pen_y [] = []
  line_quads pen_x pen_y (c ∷ rest) =
      if leb 0x80 c
      then line_quads pen_x pen_y rest
      else quad_of fl font c pen_x pen_y ∷ line_quads (advanced fl font c pen_x) pen_y rest

  -- The further lines, each from the left and a line lower.
  abbrev pub below : ℕ → ℕ → List (List ℕ) → List Quad
  below left pen_y [] = []
  below left pen_y (text ∷ rest) =
      let y = fl.minus pen_y (fl.from_int (line_height fl font)) in
      line_quads left y text ++ below left y rest

  print_from-lines :
      (left pen_x pen_y total : ℕ) (text : List ℕ)
      → (print_from fl font left pen_x pen_y total text).quads
        ≡ line_quads pen_x pen_y (first_of text) ++ below left pen_y (others_of text)
  unfolding print_from
  print_from-lines left pen_x pen_y total [] = refl
  print_from-lines left pen_x pen_y total (c ∷ rest) =
      let lower = fl.minus pen_y (fl.from_int (line_height fl font)) in
      let higher = fl.plus total (fl.from_int (line_height fl font)) in
      elim (Bool-cases (c == 0x0a)) [
        | inl end_of_line ↦ rw end_of_line (print_from-lines left left lower higher rest)
        | inr on ↦ elim (Bool-cases (leb 0x80 c)) [
          | inl skipped ↦ rw (on, skipped) (print_from-lines left pen_x pen_y total rest)
          | inr drawn ↦
              rw (on, drawn)
                (ap (λ quads. quad_of fl font c pen_x pen_y ∷ quads)
                  (print_from-lines left (advanced fl font c pen_x) pen_y total rest))
        ]
      ]

  -- The height after the further lines.
  abbrev pub height_after : ℕ → List (List ℕ) → ℕ
  height_after total [] = total
  height_after total (text ∷ rest) =
      height_after (fl.plus total (fl.from_int (line_height fl font))) rest

  print_from-height :
      (left pen_x pen_y total : ℕ) (text : List ℕ)
      → (print_from fl font left pen_x pen_y total text).height
        ≡ height_after total (others_of text)
  unfolding print_from
  print_from-height left pen_x pen_y total [] = refl
  print_from-height left pen_x pen_y total (c ∷ rest) =
      let lower = fl.minus pen_y (fl.from_int (line_height fl font)) in
      let higher = fl.plus total (fl.from_int (line_height fl font)) in
      elim (Bool-cases (c == 0x0a)) [
        | inl end_of_line ↦ rw end_of_line (print_from-height left left lower higher rest)
        | inr on ↦ elim (Bool-cases (leb 0x80 c)) [
          | inl skipped ↦ rw (on, skipped) (print_from-height left pen_x pen_y total rest)
          | inr drawn ↦
              rw (on, drawn) (print_from-height left (advanced fl font c pen_x) pen_y total rest)
        ]
      ]

  -- A text is printed as its lines would be, one below the other from the same left edge, each of its
  -- characters below 0x80 in the order of the text and the others left out; the height that is returned
  -- counts the line ends.
  pub print_text-lines :
      (x y : ℕ) (text : List ℕ) (line : ℕ)
      → let left = fl.from_int (u32 (x + 1)) in
        let top = first_line fl font y line in
        let printed = print_text fl (some font) x y text line in
        (printed.quads ≡ line_quads left top (first_of text) ++ below left top (others_of text))
        × (printed.height ≡ height_after (fl.ratio 0 1) (others_of text))
  unfolding print_text
  print_text-lines x y text line =
      (print_from-lines _ _ _ (fl.ratio 0 1) text, print_from-height _ _ _ (fl.ratio 0 1) text)
