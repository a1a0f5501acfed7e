-- ===== src/System/Joypad.antt =====
-- `KeyDown` and `KeyUp` of carbon-pc/src/gb/Memory.cpp. A clear bit of the button byte is held.
pub mod Buttons
use open_carbon.Base.{
  ℕ, ◌-◌, ◌%◌, ◌^◌, not, ◌&&◌, ltb, ◌==◌, if◌then◌else◌, bit_and, bit_or, u8, bit,
}
use open_carbon.State.{Machine}
use open_carbon.Video.Lcd.{raise}

-- `1u << (key & 0x1f)`
abbrev pub key_bit : ℕ → ℕ
key_bit key = 2 ^ (key % 2 ^ 5)

-- Whether the game has selected the key's group: directions below 4, buttons above.
abbrev pub group_line : Machine → ℕ → ℕ
group_line m key = if ltb key 4 then bit m.joyp_select 4 else bit m.joyp_select 5

unfoldable pub key_down : ℕ → Machine → Machine
key_down key m =
    let old = m.joypad_buttons in
    let m' = record m { joypad_buttons = bit_and old (0xff - u8 (key_bit key)) } in
    if group_line m key == 0 && not (bit_and (key_bit key) old == 0) && not (m.ints.int_enable == 0)
    then raise 0x10 m'
    else m'

unfoldable pub key_up : ℕ → Machine → Machine
key_up key m = record m { joypad_buttons = bit_or m.joypad_buttons (u8 (key_bit key)) }
