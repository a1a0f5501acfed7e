-- ===== src/App/Input.antt =====
-- carbon-pc/src/app/Input.h and Input.cpp. A stick byte is an `int8_t`'s bit pattern, an axis an
-- `int32_t`'s. The sums of the stick movements, which nothing reads, are left out.
pub mod Edges
use open_carbon.Base.{
  ℕ, ◌+◌, ◌*◌, ◌/◌, ◌%◌, ◌^◌, Bool, true, false, not, ◌&&◌, ◌==◌, leb, ltb, if◌then◌else◌, bit_and,
  bit_or, bit_xor, u32,
}

-- `x & mask` as a condition
abbrev pub has : ℕ → ℕ → Bool
has x mask = not (bit_and x mask == 0)

abbrev pub when : Bool → ℕ → ℕ
when test mask = if test then mask else 0

-- `NpadSnapshot`
pub record Npad : Type 0 where
  pub connected : Bool
  pub buttons : ℕ
  pub lx : ℕ
  pub ly : ℕ
  pub rx : ℕ
  pub ry : ℕ

pub record Sticks : Type 0 where
  pub left_x : ℕ
  pub left_y : ℕ
  pub right_x : ℕ
  pub right_y : ℕ

pub record Input : Type 0 where
  pub initialized : Bool
  pub held : ℕ
  pub prev_held : ℕ
  pub sticks : Sticks
  pub prev_sticks : Sticks
  pub pressed : ℕ
  pub released : ℕ

-- `CarbonButton`
abbrev pub cb_shoulder4 : ℕ
cb_shoulder4 = 0x10

abbrev pub cb_r : ℕ
cb_r = 0x20

abbrev pub cb_l : ℕ
cb_l = 0x40

abbrev pub cb_a : ℕ
cb_a = 0x100

abbrev pub cb_b : ℕ
cb_b = 0x200

abbrev pub cb_x : ℕ
cb_x = 0x400

abbrev pub cb_y : ℕ
cb_y = 0x800

abbrev pub cb_plus : ℕ
cb_plus = 0x1000

abbrev pub any_up : ℕ
any_up = 0x800008

abbrev pub any_down : ℕ
any_down = 0x400004

abbrev pub any_right : ℕ
any_right = 0x200002

abbrev pub any_left : ℕ
any_left = 0x100001

unfoldable pub map_npad_buttons : ℕ → ℕ
map_npad_buttons b =
    let shoulder = bit_and b 0x40 in
    let a = bit_or shoulder (when (has b 0x1) cb_a) in
    let b2 = bit_or a (when (has b 0x2) cb_b) in
    let x = bit_or b2 (when (has b 0x4) cb_x) in
    let y = bit_or x (when (has b 0x8) cb_y) in
    let plus = bit_or y (when (has b 0x400) cb_plus) in
    let left = bit_or plus (bit_and (b / 2 ^ 12) 1) in
    let up = bit_or left (bit_and (b / 2 ^ 10) 8) in
    let right = bit_or up (bit_and (b / 2 ^ 13) 2) in
    let down = bit_or right (bit_and (b / 2 ^ 13) 4) in
    let r = bit_or down (bit_and (b / 2 ^ 2) 0x20) in
    let zr = if has b 0x200 then bit_or r 0x30 else r in if has b 0x100 then bit_or zr 0x50 else zr

-- `static_cast<int8_t>(axis >> 8)`
abbrev pub axis_byte : ℕ → ℕ
axis_byte axis = axis / 2 ^ 8 % 2 ^ 8

-- Past -32 and past 32.
abbrev pub is_low : ℕ → Bool
is_low s = leb 0x80 s && ltb s 0xe0

abbrev pub is_high : ℕ → Bool
is_high s = ltb 32 s && ltb s 0x80

unfoldable pub stick_bits : Sticks → ℕ → ℕ
stick_bits s buttons =
    let left = bit_or buttons (when (is_low s.left_x) 0x100000) in
    let right = bit_or left (when (is_high s.left_x) 0x200000) in
    let down = bit_or right (when (is_low s.left_y) 0x400000) in
    let up = bit_or down (when (is_high s.left_y) 0x800000) in
    let left2 = bit_or up (when (is_low s.right_x) 0x10000) in
    let right2 = bit_or left2 (when (is_high s.right_x) 0x20000) in
    let down2 = bit_or right2 (when (is_low s.right_y) 0x40000) in
    bit_or down2 (when (is_high s.right_y) 0x80000)

unfoldable pub read_sticks : Npad → Sticks
read_sticks pad = record {
  left_x = axis_byte pad.lx;
  left_y = axis_byte pad.ly;
  right_x = axis_byte pad.rx;
  right_y = axis_byte pad.ry;
}

abbrev pub no_sticks : Sticks
no_sticks = record { left_x = 0; left_y = 0; right_x = 0; right_y = 0 }

-- The directions come from the sticks of the frame before.
unfoldable pub input_update : Input → Npad → Input
unfolding map_npad_buttons stick_bits read_sticks
input_update i pad =
    let live = i.initialized && pad.connected in
    let buttons = if live then map_npad_buttons pad.buttons else 0 in
    let held = stick_bits i.sticks buttons in
    record i {
      held = held;
      prev_held = i.held;
      prev_sticks = i.sticks;
      sticks = if live then read_sticks pad else no_sticks;
      pressed = bit_and (bit_xor held i.held) held;
      released = bit_and (bit_xor held i.held) i.held;
    }
