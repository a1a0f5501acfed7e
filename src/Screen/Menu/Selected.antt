-- ===== src/Screen/Menu/Selected.antt =====
-- Which line of the menu list of carbon-pc/src/app/Renderer.cpp is marked.
use Prim.Native.String.{String}
use text.Mathlib.Text.{◌==◌ as same_text}
use mathlib.Core.List.{append_assoc, append-nil}
use open_carbon.Base.{
  ℕ, suc, ◌+◌, ◌-◌, ◌*◌, ◌%◌, ◌^◌, ◌<◌, ◌≡◌, ◌≢◌, refl, sym, ap, ◌∙◌, arith, List, [], ◌∷◌, ◌++◌,
  Bool, true, false, ◌==◌, ltb, leb, ◌&&◌, if◌then◌else◌, length, Bool-cases, inl, inr,
}
use open_carbon.App.Definition.{GameDef, Entry}
use open_carbon.Screen.{Floats, ℤ, pos, negsuc, lowered, named, Draw, sprite, print, Look}
use open_carbon.Screen.Menu.{
  is_selected, draw_selection, title_row, title_rows, last_row, extra_row, preview, draw_menu_list,
}

-- The lines that are indented, and the places of the selection's bar.
abbrev pub indented : Draw → List ℤ
indented (print f x y t c) = if x == 140 then y ∷ [] else []
indented _ = []

abbrev pub bar : Draw → List ℤ
bar (sprite s (named t) x y z c) = if same_text t "MenuBar" then y ∷ [] else []
bar _ = []

abbrev pub collect : (Draw → List ℤ) → List Draw → List ℤ
collect f [] = []
collect f (d ∷ rest) = f d ++ collect f rest

-- The titles' ids are their places in the list, from `k` on.
abbrev pub InOrder : ℕ → List Entry → Type 0
InOrder k [] = Unit
InOrder k (e ∷ rest) = (e.id % 2 ^ 8 ≡ k) × InOrder (k + 1) rest

collect-append :
    (f : Draw → List ℤ) (xs ys : List Draw) → collect f (xs ++ ys) ≡ collect f xs ++ collect f ys
collect-append f [] ys = refl
collect-append f (x ∷ xs) ys =
    rw (collect-append f xs ys) (sym (append_assoc (f x) (collect f xs) (collect f ys)))

lowered_twice : (m n : ℕ) (y : ℤ) → lowered m (lowered n y) ≡ lowered (n + m) y
unfolding lowered
lowered_twice m n (pos y) = ground arith
lowered_twice m n (negsuc y) = ground arith

last_row-lowered :
    (y : ℤ) (titles : List Entry) → last_row y titles ≡ lowered (length titles * 40) y
unfolding last_row lowered
last_row-lowered (pos y) [] = ground arith
last_row-lowered (negsuc y) [] = ground arith
last_row-lowered y (e ∷ rest) =
    last_row-lowered (lowered 40 y) rest
    ∙ (lowered_twice (length rest * 40) 40 y ∙ ap (λ m. lowered m y) (omega arith))

-- An observation of the draw calls that tells a marked line from the others.
record Tells (fl : Floats) (selection : ℕ) (f : Draw → List ℤ) (mark : ℤ → List ℤ) : Type 0 where
  plain :
      (y : ℤ) (e : Entry)
      → is_selected selection e ≡ false
      → collect f (title_row fl selection y e) ≡ []
  marked :
      (y : ℤ) (e : Entry)
      → is_selected selection e ≡ true
      → collect f (title_row fl selection y e) ≡ mark y
  extra :
      (b : Bool) (y : ℤ) (index : ℕ) (name text : String)
      → (b ≡ true → index ≡ selection)
      → collect f (extra_row fl b index y name text) ≡ (if b then mark y else [])
  before : (n : ℕ) → collect f (preview fl selection n) ≡ []

-- Both halves of a test on a list of draw calls.
either_way :
    (f : Draw → List ℤ) (b : Bool) (xs ys : List Draw) (z : List ℤ)
    → (b ≡ true → collect f xs ≡ z)
    → (b ≡ false → collect f ys ≡ z)
    → collect f (if b then xs else ys) ≡ z
either_way f true xs ys z p q = p refl
either_way f false xs ys z p q = q refl

indented-extra_row :
    (fl : Floats) (b : Bool) (y : ℤ) (index : ℕ) (name text : String)
    → collect indented (extra_row fl b index y name text) ≡ (if b then y ∷ [] else [])
unfolding extra_row draw_selection
indented-extra_row fl true y index name text = refl
indented-extra_row fl false y index name text = refl

bar-extra_row :
    (fl : Floats) (b : Bool) (y : ℤ) (index : ℕ) (name text : String)
    → collect bar (extra_row fl b index y name text)
      ≡ (if b then pos (index * 40 + 240) ∷ [] else [])
unfolding extra_row draw_selection
bar-extra_row fl true y index name text = refl
bar-extra_row fl false y index name text = refl

indented-Tells : (fl : Floats) (s : ℕ) → Tells fl s indented (λ y. y ∷ [])
unfolding title_row draw_selection preview
indented-Tells fl s = record {
  plain = λ y e h. rw h refl;
  marked = λ y e h. rw h refl;
  extra = λ b y i n t h. indented-extra_row fl b y i n t;
  before = λ n. either_way indented (ltb s n) _ [] [] (λ e. refl) (λ e. refl);
}

bar-Tells : (fl : Floats) (s : ℕ) → Tells fl s bar (λ y. pos (s * 40 + 240) ∷ [])
unfolding title_row draw_selection preview
bar-Tells fl s = record {
  plain = λ y e h. rw h refl;
  marked = λ y e h. rw h refl;
  extra = λ b y i n t h. bar-extra_row fl b y i n t ∙ ground arith;
  before = λ n. either_way bar (ltb s n) _ [] [] (λ e. refl) (λ e. refl);
}

-- The line of the title `k`, and the lines behind it.
at_line :
    (mark : ℤ → List ℤ) (k s n : ℕ) (y : ℤ) (row other : List ℤ)
    → s ≡ k
    → row ≡ mark (lowered 40 y)
    → row ++ (if leb (k + 1) s && ltb s (k + 1 + n) then other else [])
      ≡ (if leb k s && ltb s (k + suc n) then mark (lowered ((s - k) * 40 + 40) y) else [])
at_line mark k s n y row other e r = ground (arith, append-nil (mark (lowered 40 y)))

past_line :
    (mark : ℤ → List ℤ) (k s n : ℕ) (y : ℤ) (row : List ℤ)
    → s ≢ k
    → row ≡ []
    → row
        ++ (if leb (k + 1) s && ltb s (k + 1 + n)
            then mark (lowered ((s - (k + 1)) * 40 + 40) (lowered 40 y))
            else [])
      ≡ (if leb k s && ltb s (k + suc n) then mark (lowered ((s - k) * 40 + 40) y) else [])
past_line mark k s n y row e r = rw r (ground (arith, lowered_twice ((s - (k + 1)) * 40 + 40) 40 y))

four_parts :
    (f : Draw → List ℤ) (a b c d : List Draw) {A B C D : List ℤ}
    → collect f a ≡ A
    → collect f b ≡ B
    → collect f c ≡ C
    → collect f d ≡ D
    → collect f (a ++ b ++ c ++ d) ≡ A ++ B ++ C ++ D
four_parts f a b c d p q r t = simp (
  collect-append f (a ++ b ++ c) d,
  collect-append f (a ++ b) c,
  collect-append f a b,
  p,
  q,
  r,
  t,
)

-- A selection below `n + 2` is a title, EXTRAS or CREDITS, whose lines are one below the other.
one_line :
    (mark : ℤ → List ℤ) (n s : ℕ) (top e c : ℤ)
    → s < n + 2
    → e ≡ lowered (n * 40 + 40) top
    → c ≡ lowered (n * 40 + 80) top
    → []
        ++ (if leb 0 s && ltb s (0 + n) then mark (lowered ((s - 0) * 40 + 40) top) else [])
        ++ (if s == n then mark e else [])
        ++ (if s == n + 1 then mark c else [])
      ≡ mark (lowered (s * 40 + 40) top)
one_line mark n s top e c below p q = ground (arith, append-nil (mark (lowered (s * 40 + 40) top)))

module _ (fl : Floats) (s : ℕ) (f : Draw → List ℤ) (mark : ℤ → List ℤ)
    (tells : Tells fl s f mark) where
  -- The lines of titles whose ids go on from `k`.
  collect-title_rows :
      (k : ℕ) (y : ℤ) (titles : List Entry)
      → InOrder k titles
      → collect f (title_rows fl s y titles) ≡ (
          if leb k s && ltb s (k + length titles) then mark (lowered ((s - k) * 40 + 40) y) else [])
  unfolding title_rows
  collect-title_rows k y [] h = ground arith
  collect-title_rows k y (e ∷ rest) h =
      let y' = lowered 40 y in
      let row = title_row fl s y' e in
      collect-append f row _
      ∙ (ap (λ later. collect f row ++ later) (collect-title_rows (k + 1) y' rest h.1)
          ∙ elim (Bool-cases (is_selected s e)) [
            | inl on ↦ at_line mark k s (length rest) y _ _ (ground arith) (tells.marked y' e on)
            | inr off ↦ past_line mark k s (length rest) y _ (ground arith) (tells.plain y' e off)
          ])

  -- The whole list, for a selection that is one of its lines.
  collect-draw_menu_list :
      (def : GameDef) (l : Look)
      → InOrder 0 def.titles
      → s < length def.titles + 2
      → l.anim_state ≢ 0
      → collect f (draw_menu_list fl def s l).1 ≡ mark (lowered (s * 40 + 40) (pos 500))
  unfolding draw_menu_list
  collect-draw_menu_list def l h below drawn =
      let n = length def.titles in
      let top = last_row-lowered (pos 500) def.titles in
      either_way f (l.anim_state == 0) [] _ _ (λ still. absurd (drawn (ground arith)))
        (λ moving.
          four_parts f _ _ _ _ (tells.before n) (collect-title_rows 0 (pos 500) def.titles h)
            (tells.extra (s == n) _ n _ _ (λ on. ground arith))
            (tells.extra (s == n + 1) _ (n + 1) _ _ (λ on. ground arith))
          ∙ one_line mark n s (pos 500) _ _ below
              (ap (lowered 40) top ∙ lowered_twice 40 (n * 40) (pos 500))
              (ap (lowered 80) top ∙ lowered_twice 80 (n * 40) (pos 500)))

-- Of the menu list exactly one line is marked, if the titles' ids are their places in the definition,
-- the selection is a title, EXTRAS or CREDITS, and the state of the menu's animation is not 0, in which
-- no list is drawn: one line is indented, the one that the selection
-- counts from the top, and one bar is drawn, 40 pixels further down for each line above it.
pub draw_menu_list-marks_one :
    (fl : Floats) (def : GameDef) (selection : ℕ) (l : Look)
    → InOrder 0 def.titles
    → selection < length def.titles + 2
    → l.anim_state ≢ 0
    → let draws = (draw_menu_list fl def selection l).1 in
      (collect indented draws ≡ lowered (selection * 40 + 40) (pos 500) ∷ [])
      × (collect bar draws ≡ pos (selection * 40 + 240) ∷ [])
draw_menu_list-marks_one fl def selection l h below drawn = (
  collect-draw_menu_list fl selection indented _ (indented-Tells fl selection) def l h below drawn,
  collect-draw_menu_list fl selection bar _ (bar-Tells fl selection) def l h below drawn,
)
