-- ===== src/App/Definition/Titles.antt =====
-- Which titles `GameDef::Load` of carbon-pc/src/app/GameDef.cpp reads.
use open_carbon.Base.{
  ℕ, zero, suc, ◌≤◌, ◌<◌, ◌≡◌, refl, List, [], ◌∷◌, Option, none, some, length, arith,
}
use open_carbon.App.Definition.{
  Xml, Entry, child, read_entry, read_titles, title_limit, load_definition,
}
use mathlib.Core.Option

module _ (xml : Xml) where
  open xml use {Element, next_sibling}

  -- The `k`-th element from one on, and the `k`-th title of a list.
  abbrev pub nth_game : ℕ → Option Element → Option Element
  nth_game k none = none
  nth_game zero (some game) = some game
  nth_game (suc k) (some game) = nth_game k (next_sibling game "game")

abbrev pub nth_title : ℕ → List Entry → Option Entry
nth_title k [] = none
nth_title zero (t ∷ rest) = some t
nth_title (suc k) (t ∷ rest) = nth_title k rest

module _ (xml : Xml) where
  open xml use {Element, next_sibling}

  pub read_titles-nth :
      (limit : ℕ) (game : Option Element) (k : ℕ)
      → k < limit
      → nth_title k (read_titles xml limit game) ≡ Option.map (read_entry xml) (nth_game xml k game)
  unfolding read_titles
  read_titles-nth zero game k below = absurd (omega arith)
  read_titles-nth (suc limit) none k below = refl
  read_titles-nth (suc limit) (some game) zero below = refl
  read_titles-nth (suc limit) (some game) (suc k) below =
      read_titles-nth limit (next_sibling game "game") k (omega arith)

  read_titles-length :
      (limit : ℕ) (game : Option Element) → length (read_titles xml limit game) ≤ limit
  unfolding read_titles
  read_titles-length zero game = omega arith
  read_titles-length (suc limit) none = omega arith
  read_titles-length (suc limit) (some game) =
      omega (arith, read_titles-length limit (next_sibling game "game"))

  -- The definition has at most as many titles as its `count` says, and its titles are, in the order of
  -- the file, those of the `game` elements up to that count: where there are fewer elements, the list
  -- ends with them.
  pub load_definition-titles :
      (carbon : Option Element)
      → let def = load_definition xml carbon in
        let first = child xml (child xml carbon "titles") "game" in
        let limit = title_limit xml (child xml carbon "titles") in
        (length def.titles ≤ limit)
        × ((k : ℕ)
            → k < limit
            → nth_title k def.titles ≡ Option.map (read_entry xml) (nth_game xml k first))
  unfolding load_definition
  load_definition-titles carbon = (read_titles-length _ _, λ k below. read_titles-nth _ _ k below)
