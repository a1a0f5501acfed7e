-- ===== src/App/Pause/Released.antt =====
-- The keys of the game while the pause menu of carbon-pc/src/app/App.cpp is used.
use open_carbon.Base.{
  ℕ, ◌<◌, ◌≡◌, refl, arith, bit, Bool, ◌==◌, bit-bit_or, all_below, all_below_sound, ==_iff, ◌+◌,
}
use open_carbon.App.Input.Edges.{bit_lt}
use open_carbon.App.State.{App}
use open_carbon.App.Pause.{release_keys}
use open_carbon.System.Joypad.{key_up}

one_mask : ℕ → Bool
one_mask k =
    (bit 1 k + bit 2 k + bit 4 k + bit 8 k + bit 16 k + bit 32 k + bit 64 k + bit 128 k) == 1

pub bit-masks :
    (k : ℕ)
    → k < 8
    → bit 1 k + bit 2 k + bit 4 k + bit 8 k + bit 16 k + bit 32 k + bit 64 k + bit 128 k ≡ 1
unfolding one_mask all_below
bit-masks k l = (==_iff _ _).0 (all_below_sound 8 one_mask k refl l)

-- Once an entry of the pause menu is chosen or left, the game sees none of its eight keys held.
pub release_keys-bit :
    (a : App) (k : ℕ) → k < 8 → bit (release_keys a).system.machine.joypad_buttons k ≡ 1
unfolding release_keys key_up
release_keys-bit a k l =
    let b = a.system.machine.joypad_buttons in
    simp (bit-bit_or k) (omega (arith, bit-masks k l, bit_lt k b))
