-- ===== src/Screen/Pause/Slots.antt =====
-- Whose pictures the pause menu of carbon-pc/src/app/Renderer.cpp shows.
use open_carbon.Base.{
  ℕ, ◌≡◌, ◌⊎◌, inl, inr, refl, arith, List, [], ◌∷◌, ◌++◌, Bool, true, false, ◌==◌, ◌||◌,
  if◌then◌else◌, All,
}
use open_carbon.Screen.{big, small, pos, Floats, Look, Colour, Draw, sprite, print, flush, numbered}
use open_carbon.Screen.Hue.{pause_hue}
use open_carbon.Screen.Pause.{
  PauseView, draw_pause_menu, pause_animation, pause_list, slot_entry, slot_entries,
}

abbrev flushes : List Draw
flushes = flush small ∷ flush big ∷ []

-- A picture of a slot shows a used slot, or the one whose loading is to be confirmed.
abbrev pub Shown : PauseView → Draw → Type 0
Shown v (sprite shader (numbered name n) x y extent c) =
    (v.pause_sub ≡ 3) × (n ≡ v.pause_slot) ⊎ ((v.slots n).empty ≡ 0)
Shown v _ = Unit

All-append :
    (v : PauseView) (xs ys : List Draw)
    → All (Shown v) xs
    → All (Shown v) ys
    → All (Shown v) (xs ++ ys)
All-append v [] ys h k = k
All-append v (x ∷ xs) ys h k = (h.0, All-append v xs ys h.1 k)

All-if :
    (v : PauseView) (b : Bool) (xs ys : List Draw)
    → (b ≡ true → All (Shown v) xs)
    → (b ≡ false → All (Shown v) ys)
    → All (Shown v) (if b then xs else ys)
All-if v true xs ys p q = p refl
All-if v false xs ys p q = q refl

slot_entry-Shown :
    (fl : Floats) (v : PauseView) (c : Colour) (color slot title_y stamp_y preview_y : ℕ)
    → All (Shown v) (slot_entry fl v c color slot title_y stamp_y preview_y)
unfolding slot_entry
slot_entry-Shown fl v c color slot title_y stamp_y preview_y =
    All-append v (print big 860 (pos title_y) (v.slots slot).title color ∷ []) _ (tt, tt)
      (All-if v ((v.slots slot).empty == 0) _ _ (λ used. (tt, (inr (ground arith), tt)))
        (λ free. tt))

slot_entries-Shown :
    (fl : Floats) (v : PauseView) (c : Colour) (color : ℕ)
    → All (Shown v) (slot_entries fl v c color)
unfolding slot_entries
slot_entries-Shown fl v c color =
    let third = slot_entry fl v c color 2 210 170 456 in
    let second = slot_entry fl v c color 1 360 320 306 in
    let first = slot_entry fl v c color 0 510 470 156 in
    let both = third ++ flushes ++ second in
    let two =
      All-append v third flushes (slot_entry-Shown fl v c color 2 210 170 456) (tt, (tt, tt)) in
    let four =
      All-append v (third ++ flushes) second two (slot_entry-Shown fl v c color 1 360 320 306) in
    All-append v (both ++ flushes ++ first) (flush big ∷ [])
      (All-append v (both ++ flushes) first (All-append v both flushes four (tt, (tt, tt)))
        (slot_entry-Shown fl v c color 0 510 470 156))
      (tt, tt)

pause_list-Shown :
    (fl : Floats) (v : PauseView) (hue : ℕ) (c : Colour) → All (Shown v) (pause_list fl v hue c)
unfolding pause_list
pause_list-Shown fl v hue c =
    let rest : All (Shown v) _ =
      All-if v (v.selection == 0) _ _ (λ e. (tt, tt))
        (λ e.
          All-if v (v.selection == 1 || v.selection == 2) _ _
            (λ s. (tt, (tt, (tt, slot_entries-Shown fl v c _)))) (λ s. tt)) in
    (tt, (tt, (tt, rest)))

-- A picture of a slot that the pause menu draws shows a used slot; only where the loading of the
-- selected slot is to be confirmed, that slot is shown whatever it is.
pub draw_pause_menu-Shown :
    (fl : Floats) (v : PauseView) (l : Look) → All (Shown v) (draw_pause_menu fl v l).1
unfolding draw_pause_menu
draw_pause_menu-Shown fl v l =
    let l' = pause_animation fl v.closing (record l { hue = pause_hue l.hue }) in
    All-if v (v.pause_sub == 3) _ _ (λ three. (tt, (inl (ground arith, refl), (tt, (tt, tt)))))
      (λ e.
        All-if v (v.pause_sub == 4) _ _ (λ four. (tt, (tt, (tt, (tt, (tt, tt))))))
          (λ e. pause_list-Shown fl v l'.hue l'.menu_fade))
