-- ===== src/Screen/Pause.antt =====
-- `DrawPauseOptions` and `DrawPauseMenu` of carbon-pc/src/app/Renderer.cpp. `pause_sub` and
-- `pause_slot` are `g::pauseSub`, as bit patterns of an `int`.
pub mod Slots
use Prim.Native.String.{String}
use open_carbon.Base.{
  ℕ, ◌+◌, ◌-◌, ◌*◌, ◌%◌, ◌^◌, List, [], ◌∷◌, ◌++◌, Bool, true, false, not, ◌==◌, ◌||◌, ltb, leb,
  if◌then◌else◌, bit_or, u32,
}
use open_carbon.Screen.{
  Floats, Colour, grey, pos, Texture, named, numbered, size, sprite_shader, big, small, Draw,
  sprite, print, flush, upload, Look, full_screen, menu_bar, select_icon, white, black, each,
}
use open_carbon.Screen.Hue.{hue_byte, next_hue, pause_hue, pause_rainbow}

-- What the pause menu shows of a slot: `SaveSlotInfo`.
pub record Slot : Type 0 where
  pub empty : ℕ
  pub title : String
  pub timestamp : String

-- What the pause menu reads: `pauseSelection`, `pauseSub`, `filter`, `pauseClosing` and the slots.
pub record PauseView : Type 0 where
  pub selection : ℕ
  pub pause_sub : ℕ
  pub pause_slot : ℕ
  pub filter : ℕ
  pub closing : Bool
  pub slots : ℕ → Slot

-- `item`
unfoldable pub option_item : ℕ → ℕ → ℕ → ℕ → String → ℕ → List Draw
option_item selected unselected selection index text y =
    print big (if selection == index then 220 else 180) (pos y) text
      (if selection == index then selected else unselected)
    ∷ flush big
    ∷ []

abbrev pub filter_name : ℕ → String
filter_name filter =
    if filter == 0
    then "FILTER : Sharp"
    else if filter == 1
    then "FILTER : LCD"
    else if filter == 2
    then "FILTER : Native"
    else "Filter : GameBoy Color"

unfoldable pub filter_item : ℕ → ℕ → ℕ → ℕ → List Draw
filter_item selected unselected selection filter =
    (if leb filter 3
      then print big (if selection == 4 then 220 else 180) (pos 160) (filter_name filter)
          (if selection == 4 then selected else unselected)
        ∷ []
      else [])
    ++ (flush big ∷ [])

module _ (fl : Floats) where
  unfoldable pub draw_pause_options : PauseView → Look → Look × List Draw
  unfolding option_item filter_item next_hue pause_rainbow
  draw_pause_options v l =
      let alpha = fl.to_int (fl.times l.pause_fade.b (fl.ratio 255 1)) in
      let sel = bit_or alpha 0xffffff00 in
      let unsel = bit_or alpha 0xf9f9bc00 in
      let item = option_item sel unsel v.selection in
      if v.pause_sub == 3 || v.pause_sub == 4 then (l, []) else (
        record l { hue = next_hue 8 l.hue; rainbow = pause_rainbow l.hue },
        item 0 "RESUME GAME" 400
            ++ item 1 "LOAD STATE" 340
            ++ item 2 "SAVE STATE" 280
            ++ item 3 "RESET GAME" 220
            ++ filter_item sel unsel v.selection v.filter
            ++ item 5 "EXIT TO MAIN MENU" 100
            ++ (if v.selection == 0
                then print big 860 (pos 540) "GAME CONTROLS" unsel ∷ flush big ∷ []
                else []),
      )

  -- The slide and the fade of the menu as it opens or closes.
  unfoldable pub pause_animation : Bool → Look → Look
  pause_animation closing l =
      let zero_float = fl.ratio 0 1 in
      let one = fl.ratio 1 1 in
      let step = fl.ratio 1 10 in
      let slide = fl.ratio 24 1 in
      let end = fl.negated (fl.ratio 720 1) in
      let right = fl.plus l.slide_x slide in
      let left = fl.minus l.slide_x slide in
      let brighter = each fl (λ c. fl.plus c step) l.menu_fade in
      let darker = each fl (λ c. fl.minus c step) l.menu_fade in
      if not closing
      then record l {
        slide_x = if fl.less zero_float right then zero_float else right;
        menu_fade = if fl.less one brighter.r then white fl else brighter;
      }
      else record l {
        slide_x = if fl.less left end then end else left;
        menu_fade = if fl.at_most darker.r zero_float then black fl zero_float else darker;
      }

  -- `boxColor`: the hue's bytes are multiplied with the fade.
  unfoldable pub box_color : PauseView → ℕ → Colour → ℕ → Colour
  box_color v hue c slot =
      let byte = λ (i : ℕ). fl.times (fl.ratio (hue_byte ((hue + i) % 360)) 1) c.b in
      if v.closing || not (v.pause_slot == slot)
      then c
      else record { r = fl.times c.b (fl.ratio 255 1); g = byte 20; b = byte 60; a = byte 40 }

  -- The text's colour from the fade's components, each cut to an `int`.
  unfoldable pub slot_text_color : Colour → ℕ
  slot_text_color fade = u32 (
      fl.to_int fade.g * 0xff
      + fl.to_int fade.b * 0xff00
      + fl.to_int fade.r * 0xff0000
      + fl.to_int fade.a * 0xff000000)

  abbrev pub state_box : ℕ → Colour → Draw
  state_box y color =
      sprite sprite_shader (named "SaveStateBox") (pos 700) (pos y) (size 400 120) color

  -- One round of the loop over the layout, without the flushes at its end.
  unfoldable pub slot_entry : PauseView → Colour → ℕ → ℕ → ℕ → ℕ → ℕ → List Draw
  slot_entry v c color slot title_y stamp_y preview_y =
      let s = v.slots slot in
      (print big 860 (pos title_y) s.title color ∷ [])
      ++ (if s.empty == 0
          then print small 860 (pos stamp_y) s.timestamp color
            ∷ sprite sprite_shader (numbered "PreviewImage" slot) (pos 710) (pos preview_y)
                (size 130 108) c
            ∷ []
          else [])

  -- The texts of the first slot are flushed with the big font alone.
  unfoldable pub slot_entries : PauseView → Colour → ℕ → List Draw
  unfolding slot_entry
  slot_entries v c color =
      slot_entry v c color 2 210 170 456
      ++ (flush small ∷ flush big ∷ [])
      ++ slot_entry v c color 1 360 320 306
      ++ (flush small ∷ flush big ∷ [])
      ++ slot_entry v c color 0 510 470 156
      ++ (flush big ∷ [])

  -- The list of options with its selection, and beside it the slots or the controller.
  unfoldable pub pause_list : PauseView → ℕ → Colour → List Draw
  unfolding box_color slot_text_color slot_entries
  pause_list v hue c =
      let box = box_color v hue c in
      let panel =
        sprite sprite_shader (named "PauseMenu") (pos 0) (pos 0) full_screen c
        ∷ sprite sprite_shader (named "MenuBar") (pos 180) (pos (v.selection * 60 + 300)) menu_bar c
        ∷ sprite sprite_shader (named "SelectIcon") (pos 120) (pos (v.selection * 60 + 286))
            select_icon c
        ∷ [] in
      panel
      ++ (if v.selection == 0
          then sprite sprite_shader (named "ControllerImage") (pos 750) (pos 220)
              (record { width = 47400; height = 35480 }) c
            ∷ []
          else if v.selection == 1 || v.selection == 2
          then (state_box 150 (box 0) ∷ state_box 300 (box 1) ∷ state_box 450 (box 2) ∷ [])
            ++ slot_entries v c (slot_text_color c)
          else [])

  abbrev pub dialog : Draw → String → Colour → List Draw
  dialog picture text c =
      sprite sprite_shader (named "DialogBox") (pos 380) (pos 270) (size 500 200) c
      ∷ picture
      ∷ print big 440 (pos 340) text 0xb3060fff
      ∷ flush big
      ∷ []

  abbrev pub dialog_picture : Texture → Colour → Draw
  dialog_picture t c = sprite sprite_shader t (pos 670) (pos 300) (size 160 144) c

  unfoldable pub draw_pause_menu : PauseView → Look → Look × List Draw
  unfolding pause_animation pause_list pause_hue
  draw_pause_menu v l =
      let l' = pause_animation v.closing (record l { hue = pause_hue l.hue }) in
      let c = l'.menu_fade in
      (
        record l' { pause_fade = c },
        (if v.pause_sub == 3
            then dialog (dialog_picture (numbered "PreviewImage" v.pause_slot) c) "CONFIRM LOAD ?" c
            else if v.pause_sub == 4
            then upload (named "GBFrameBuffer") 160 144 false
              ∷ dialog (dialog_picture (named "GBFrameBuffer") c) "CONFIRM SAVE ?" c
            else pause_list v l'.hue c),
      )
