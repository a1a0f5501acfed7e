-- ===== src/Screen/Glyphs.antt =====
-- `TextRenderer::Print` of carbon-pc/src/gfx/TextRenderer.cpp. A text is its bytes up to the zero; an
-- `int` and a `float` are bit patterns. The colour goes to OpenGL.
pub mod Lines
use open_carbon.Base.{
  ℕ, zero, suc, ◌+◌, ◌-◌, ◌*◌, ◌^◌, List, [], ◌∷◌, Option, none, some, Bool, ◌==◌, ◌&&◌, ltb, leb,
  if◌then◌else◌, u32,
}
use open_carbon.Screen.{Floats}

-- `GlyphPix` and `FontFile`, as far as they are read.
pub record GlyphPix : Type 0 where
  pub width : ℕ
  pub height : ℕ
  pub advance : ℕ
  pub off_x : ℕ
  pub off_y : ℕ

pub record FontFile : Type 0 where
  pub ascent : ℕ
  pub descent : ℕ
  pub linegap : ℕ
  pub glyphs : ℕ → GlyphPix

-- `Quad`
pub record Quad : Type 0 where
  pub x : ℕ
  pub y : ℕ
  pub w : ℕ
  pub h : ℕ
  pub glyph : ℕ

-- The quads that are pushed, and the height.
pub record Printed : Type 0 where
  pub quads : List Quad
  pub height : ℕ

module _ (fl : Floats) (font : FontFile) where
  unfoldable pub line_height : ℕ
  line_height = u32 (font.ascent + font.descent + font.linegap)

  -- `static_cast<float>(static_cast<int>(v))`
  abbrev pub cut : ℕ → ℕ
  cut v = fl.from_int (fl.to_int v)

  unfoldable pub quad_of : ℕ → ℕ → ℕ → Quad
  quad_of c pen_x pen_y =
      let g = font.glyphs c in
      record {
        x = cut (fl.plus pen_x (fl.from_int g.off_x));
        y = cut (fl.minus (fl.minus pen_y (fl.from_int g.height)) (fl.from_int g.off_y));
        w = fl.from_int g.width;
        h = fl.from_int g.height;
        glyph = fl.from_int c;
      }

  abbrev pub advanced : ℕ → ℕ → ℕ
  advanced c pen_x = fl.plus pen_x (fl.from_int (font.glyphs c).advance)

  -- The loop over the text, from a pen and a height on; lines start at `left`.
  unfoldable pub print_from : ℕ → ℕ → ℕ → ℕ → List ℕ → Printed
  unfolding quad_of line_height
  print_from left pen_x pen_y total [] = record { quads = []; height = total }
  print_from left pen_x pen_y total (c ∷ rest) =
      let lower =
        print_from left left (fl.minus pen_y (fl.from_int line_height))
          (fl.plus total (fl.from_int line_height)) rest in
      let same = print_from left pen_x pen_y total rest in
      let next = print_from left (advanced c pen_x) pen_y total rest in
      if c == 0x0a
      then lower
      else if leb 0x80 c
      then same
      else record next { quads = quad_of c pen_x pen_y ∷ next.quads }

  -- `line` is not negative: lines past the first start lower.
  unfoldable pub first_line : ℕ → ℕ → ℕ
  unfolding line_height
  first_line y line =
      if ltb 1 line
      then fl.plus (fl.from_int y) (fl.from_int (u32 (line_height * (line - 1))))
      else fl.from_int y

-- `Print`: without a font nothing is printed.
unfoldable pub print_text : Floats → Option FontFile → ℕ → ℕ → List ℕ → ℕ → Printed
unfolding print_from first_line
print_text fl none x y text line = record { quads = []; height = fl.ratio 0 1 }
print_text fl (some font) x y text line =
    let left = fl.from_int (u32 (x + 1)) in
    print_from fl font left left (first_line fl font y line) (fl.ratio 0 1) text
