-- ===== src/Platform/Window/Pad.antt =====
-- What the controller of carbon-pc/src/platform/win32/Platform_win32.cpp reports: `PollNpad`.
use open_carbon.Base.{
  ℕ, ◌+◌, ◌*◌, ◌%◌, ◌^◌, ◌≤◌, ◌<◌, ◌≡◌, ◌∙◌, arith, max, List, [], ◌∷◌, Option, none, some, Bool,
  true, false, if◌then◌else◌, bit, bit_or, bit-bit_or,
}
use open_carbon.App.Input.{Npad}
use open_carbon.Platform.Script.{bit_zero}
use open_carbon.Platform.Window.{
  Key, Gamepad, key_bindings, pad_bindings, join_bound, axis_keys, clamp_axis, from_keys, or_axis,
  with_gamepad, add_gamepad, poll_npad,
}

-- Whether a held key is bound to a button, as 0 or 1.
abbrev pub bound_to {ℓ} : {A : Type ℓ} → (A → Bool) → List (A × ℕ) → ℕ → ℕ
bound_to held [] k = 0
bound_to held ((key, mask) ∷ rest) k =
    max (if held key then bit mask k else 0) (bound_to held rest k)

if_or-bit :
    (t : Bool) (buttons mask k : ℕ)
    → bit (if t then bit_or buttons mask else buttons) k
      ≡ max (bit buttons k) (if t then bit mask k else 0)
if_or-bit true buttons mask k = bit-bit_or k buttons mask
if_or-bit false buttons mask k = omega arith

join_bound-bit {ℓ} :
    {A : Type ℓ} (held : A → Bool) (table : List (A × ℕ)) (buttons k : ℕ)
    → bit (join_bound held table buttons) k ≡ max (bit buttons k) (bound_to held table k)
unfolding join_bound
join_bound-bit held [] buttons k = omega arith
join_bound-bit held ((key, mask) ∷ rest) buttons k =
    join_bound-bit held rest (if held key then bit_or buttons mask else buttons) k
    ∙ omega (arith, if_or-bit (held key) buttons mask k)

-- The triggers stand for the buttons ZL and ZR.
abbrev pub pulled : Gamepad → ℕ → ℕ
pulled gp k =
    max (if gp.left_trigger then bit (2 ^ 8) k else 0)
      (if gp.right_trigger then bit (2 ^ 9) k else 0)

abbrev pub on_gamepad : Option Gamepad → ℕ → ℕ
on_gamepad none k = 0
on_gamepad (some gp) k = max (bound_to gp.down pad_bindings k) (pulled gp k)

-- An axis from -32767 to 32767.
abbrev pub InAxis : ℕ → Type 0
InAxis v = (v + 32767) % 2 ^ 32 ≤ 2 * 32767

clamp_axis-InAxis : (v : ℕ) → v < 2 ^ 32 → InAxis (clamp_axis v)
unfolding clamp_axis
clamp_axis-InAxis v h = ground arith

axis_keys-InAxis : (low high : Bool) → InAxis (axis_keys low high)
unfolding axis_keys
axis_keys-InAxis low high = ground arith

or_axis-InAxis : (old v : ℕ) → InAxis old → v < 2 ^ 32 → InAxis (or_axis old v)
or_axis-InAxis old v h k = ground (arith, clamp_axis-InAxis v k)

-- The four axes of a snapshot, and those of a controller as bit patterns.
pub record AxesInRange (out : Npad) : Type 0 where
  pub lx : InAxis out.lx
  pub ly : InAxis out.ly
  pub rx : InAxis out.rx
  pub ry : InAxis out.ry

abbrev pub IsPattern : Option Gamepad → Type 0
IsPattern none = Unit
IsPattern (some gp) =
    (gp.thumb_lx < 2 ^ 32)
    × (gp.thumb_ly < 2 ^ 32)
    × (gp.thumb_rx < 2 ^ 32)
    × (gp.thumb_ry < 2 ^ 32)

from_keys-AxesInRange : (keys : Key → Bool) → AxesInRange (from_keys keys)
unfolding from_keys
from_keys-AxesInRange keys = record {
  lx = axis_keys-InAxis _ _;
  ly = axis_keys-InAxis _ _;
  rx = axis_keys-InAxis _ _;
  ry = omega arith;
}

add_gamepad-AxesInRange :
    (pad : Option Gamepad) (out : Npad)
    → IsPattern pad
    → AxesInRange out
    → AxesInRange (add_gamepad pad out)
unfolding add_gamepad with_gamepad
add_gamepad-AxesInRange none out h r = r
add_gamepad-AxesInRange (some gp) out h r = record {
  lx = or_axis-InAxis out.lx gp.thumb_lx r.lx h.0;
  ly = or_axis-InAxis out.ly gp.thumb_ly r.ly h.1;
  rx = or_axis-InAxis out.rx gp.thumb_rx r.rx h.2;
  ry = or_axis-InAxis out.ry gp.thumb_ry r.ry h.3;
}

add_gamepad-bit :
    (pad : Option Gamepad) (out : Npad) (k : ℕ)
    → bit (add_gamepad pad out).buttons k ≡ max (bit out.buttons k) (on_gamepad pad k)
unfolding add_gamepad with_gamepad
add_gamepad-bit none out k = omega arith
add_gamepad-bit (some gp) out k =
    let bound = join_bound gp.down pad_bindings out.buttons in
    let left = if gp.left_trigger then bit_or bound (2 ^ 8) else bound in
    omega (
      arith,
      join_bound-bit gp.down pad_bindings out.buttons k,
      if_or-bit gp.left_trigger bound (2 ^ 8) k,
      if_or-bit gp.right_trigger left (2 ^ 9) k,
    )

-- Without a script a button is held exactly if a key that is bound to it is, or a button or trigger of
-- the controller; and every axis lies between -32767 and 32767, whatever the controller reports.
pub poll_npad-held :
    (keys : Key → Bool) (pad : Option Gamepad) (k : ℕ)
    → IsPattern pad
    → let out = poll_npad none keys pad in
      (bit out.buttons k ≡ max (bound_to keys key_bindings k) (on_gamepad pad k)) × AxesInRange out
unfolding poll_npad from_keys
poll_npad-held keys pad k h = (
  omega (
    arith,
    add_gamepad-bit pad (from_keys keys) k,
    join_bound-bit keys key_bindings 0 k,
    bit_zero k,
  ),
  add_gamepad-AxesInRange pad (from_keys keys) h (from_keys-AxesInRange keys),
)
