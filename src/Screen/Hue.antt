-- ===== src/Screen/Hue.antt =====
-- The hue of carbon-pc/src/app/Renderer.cpp, which runs through `kHueTable` of
-- carbon-pc/src/app/Globals.cpp.
pub mod Range
use open_carbon.Base.{
  ℕ, ◌+◌, ◌*◌, ◌%◌, ◌^◌, List, [], ◌∷◌, get_or, bit_or, ltb, if◌then◌else◌, ◌≡◌, ◌<◌, ◌≤◌, arith,
  refl,
}

-- The table up to its last entry that is not zero, and the zeros behind it.
abbrev pub hue_table : List ℕ
hue_table =
    0 ∷ 0 ∷ 0 ∷ 0 ∷ 0 ∷ 1 ∷ 1 ∷ 2 ∷ 2 ∷ 3 ∷ 4 ∷ 5 ∷ 6 ∷ 7 ∷ 8 ∷ 9 ∷ 11 ∷ 12 ∷ 13 ∷ 15 ∷ 17 ∷ 18 ∷ 20
    ∷ 22 ∷ 24 ∷ 26 ∷ 28 ∷ 30 ∷ 32 ∷ 35 ∷ 37 ∷ 39 ∷ 42 ∷ 44 ∷ 47 ∷ 49 ∷ 52 ∷ 55 ∷ 58 ∷ 60 ∷ 63 ∷ 66
    ∷ 69 ∷ 72 ∷ 75 ∷ 78 ∷ 81 ∷ 85 ∷ 88 ∷ 91 ∷ 94 ∷ 97 ∷ 101 ∷ 104 ∷ 107 ∷ 111 ∷ 114 ∷ 117 ∷ 121
    ∷ 124 ∷ 127 ∷ 131 ∷ 134 ∷ 137 ∷ 141 ∷ 144 ∷ 147 ∷ 150 ∷ 154 ∷ 157 ∷ 160 ∷ 163 ∷ 167 ∷ 170 ∷ 173
    ∷ 176 ∷ 179 ∷ 182 ∷ 185 ∷ 188 ∷ 191 ∷ 194 ∷ 197 ∷ 200 ∷ 202 ∷ 205 ∷ 208 ∷ 210 ∷ 213 ∷ 215 ∷ 217
    ∷ 220 ∷ 222 ∷ 224 ∷ 226 ∷ 229 ∷ 231 ∷ 232 ∷ 234 ∷ 236 ∷ 238 ∷ 239 ∷ 241 ∷ 242 ∷ 244 ∷ 245 ∷ 246
    ∷ 248 ∷ 249 ∷ 250 ∷ 251 ∷ 251 ∷ 252 ∷ 253 ∷ 253 ∷ 254 ∷ 254 ∷ 255 ∷ 255 ∷ 255 ∷ 255 ∷ 255 ∷ 255
    ∷ 255 ∷ 254 ∷ 254 ∷ 253 ∷ 253 ∷ 252 ∷ 251 ∷ 251 ∷ 250 ∷ 249 ∷ 248 ∷ 246 ∷ 245 ∷ 244 ∷ 242 ∷ 241
    ∷ 239 ∷ 238 ∷ 236 ∷ 234 ∷ 232 ∷ 231 ∷ 229 ∷ 226 ∷ 224 ∷ 222 ∷ 220 ∷ 217 ∷ 215 ∷ 213 ∷ 210 ∷ 208
    ∷ 205 ∷ 202 ∷ 200 ∷ 197 ∷ 194 ∷ 191 ∷ 188 ∷ 185 ∷ 182 ∷ 179 ∷ 176 ∷ 173 ∷ 170 ∷ 167 ∷ 163 ∷ 160
    ∷ 157 ∷ 154 ∷ 150 ∷ 147 ∷ 144 ∷ 141 ∷ 137 ∷ 134 ∷ 131 ∷ 127 ∷ 124 ∷ 121 ∷ 117 ∷ 114 ∷ 111 ∷ 107
    ∷ 104 ∷ 101 ∷ 97 ∷ 94 ∷ 91 ∷ 88 ∷ 85 ∷ 81 ∷ 78 ∷ 75 ∷ 72 ∷ 69 ∷ 66 ∷ 63 ∷ 60 ∷ 58 ∷ 55 ∷ 52 ∷ 49
    ∷ 47 ∷ 44 ∷ 42 ∷ 39 ∷ 37 ∷ 35 ∷ 32 ∷ 30 ∷ 28 ∷ 26 ∷ 24 ∷ 22 ∷ 20 ∷ 18 ∷ 17 ∷ 15 ∷ 13 ∷ 12 ∷ 11
    ∷ 9 ∷ 8 ∷ 7 ∷ 6 ∷ 5 ∷ 4 ∷ 3 ∷ 2 ∷ 2 ∷ 1 ∷ 1 ∷ []

abbrev pub hue_byte : ℕ → ℕ
hue_byte i = get_or hue_table i 0

-- `hue = (hue + step < 360) ? hue + step : 40`
unfoldable pub next_hue : ℕ → ℕ → ℕ
next_hue step hue = if ltb (hue + step) 360 then hue + step else 40

-- The colours that the menu list and the pause options leave.
unfoldable pub menu_rainbow : ℕ → ℕ
menu_rainbow hue = bit_or (hue_byte ((hue + 240) % 360)) 0xffffff00

unfoldable pub pause_rainbow : ℕ → ℕ
pause_rainbow hue =
    bit_or
      (bit_or (bit_or (hue_byte ((hue + 120) % 360) * 2 ^ 16) (hue_byte hue * 2 ^ 8))
        (hue_byte ((hue + 240) % 360)))
      0xff000000

-- `hue = (hue < 359) ? hue + 1 : 40` of the pause menu.
unfoldable pub pause_hue : ℕ → ℕ
pause_hue hue = if ltb hue 359 then hue + 1 else 40
