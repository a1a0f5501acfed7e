-- ===== src/System/Joypad/Buttons.antt =====
-- The buttons of carbon-pc/src/gb/Memory.cpp: the host's key calls and what FF00 answers.
use open_carbon.Base.{
  ℕ, zero, suc, ◌-◌, ◌/◌, ◌<◌, ◌≡◌, refl, arith, ◌==◌, if◌then◌else◌, bit_and, bit, u8, all_below,
  all_below_sound, bit-bit_and, bit-bit_or, ==_iff, Bool,
}
use open_carbon.State.{Machine}
use open_carbon.System.Joypad.{key_down, key_up, key_bit}

-- The mask of a press and the mask of a release, bit by bit.
press_bits : ℕ → ℕ → Bool
press_bits key n = bit (0xff - u8 (key_bit key)) n == (if n == key then 0 else 1)

release_bits : ℕ → ℕ → Bool
release_bits key n = bit (u8 (key_bit key)) n == (if n == key then 1 else 0)

bit-press :
    (key n : ℕ) → key < 8 → n < 8 → bit (0xff - u8 (key_bit key)) n ≡ (if n == key then 0 else 1)
unfolding all_below press_bits
bit-press key n h l =
    let row = all_below_sound 8 (λ k. all_below 8 (press_bits k)) key refl h in
    (==_iff _ _).0 (all_below_sound 8 (press_bits key) n row l)

bit-release : (key n : ℕ) → key < 8 → n < 8 → bit (u8 (key_bit key)) n ≡ (if n == key then 1 else 0)
unfolding all_below release_bits
bit-release key n h l =
    let row = all_below_sound 8 (λ k. all_below 8 (release_bits k)) key refl h in
    (==_iff _ _).0 (all_below_sound 8 (release_bits key) n row l)

bit-lt : (n x : ℕ) → bit x n < 2
bit-lt zero x = omega arith
bit-lt (suc n) x = bit-lt n (x / 2)

-- A press clears the bit of its key.
key_down-buttons :
    (m : Machine) (key : ℕ)
    → (key_down key m).joypad_buttons ≡ bit_and m.joypad_buttons (0xff - u8 (key_bit key))
unfolding key_down
key_down-buttons m key = ground arith

key_down-bit :
    (m : Machine) (key n : ℕ)
    → key < 8
    → n < 8
    → bit (key_down key m).joypad_buttons n ≡ (if n == key then 0 else bit m.joypad_buttons n)
key_down-bit m key n h l =
    rw
      (
        key_down-buttons m key,
        bit-bit_and n m.joypad_buttons (0xff - u8 (key_bit key)),
        bit-press key n h l,
      )
      (ground (arith, bit-lt n m.joypad_buttons))

key_up-bit :
    (m : Machine) (key n : ℕ)
    → key < 8
    → n < 8
    → bit (key_up key m).joypad_buttons n ≡ (if n == key then 1 else bit m.joypad_buttons n)
unfolding key_up
key_up-bit m key n h l =
    rw (bit-bit_or n m.joypad_buttons (u8 (key_bit key)), bit-release key n h l)
      (ground (arith, bit-lt n m.joypad_buttons))

-- For the eight keys: a press pulls the line of its key down, a release lets it up again, and neither
-- moves the line of another key.
pub keys-lines :
    (m : Machine) (key n : ℕ)
    → key < 8
    → n < 8
    → (bit (key_down key m).joypad_buttons n ≡ (if n == key then 0 else bit m.joypad_buttons n))
      × (bit (key_up key (key_down key m)).joypad_buttons n
          ≡ (if n == key then 1 else bit m.joypad_buttons n))
keys-lines m key n h l =
    let down = key_down-bit m key n h l in
    (down, ground (arith, down, key_up-bit (key_down key m) key n h l))
