-- ===== src/Platform/Window.antt =====
-- The window's side of carbon-pc/src/platform/win32/Platform_win32.cpp that does not call Windows: the
-- picture's place in the window, the pace of the frames, the controller and the script's events. An
-- axis is an `int32_t`'s bit pattern, a time is not negative.
pub mod Canvas
pub mod Pace
pub mod Pad
use open_carbon.Base.{
  ℕ, zero, suc, ◌+◌, ◌-◌, ◌*◌, ◌/◌, ◌%◌, ◌^◌, max, List, [], ◌∷◌, ◌++◌, Option, none, some, Bool,
  true, false, not, ◌==◌, ◌&&◌, ◌||◌, ltb, leb, if◌then◌else◌, bit_or, Bytes, length,
}
use open_carbon.App.Input.{Npad}
use open_carbon.Platform.Script.{
  Event, EventKind, hold, stick, shot, log, quit, events_at, pad_state,
}

-- `CanvasRect`
pub record CanvasRect : Type 0 where
  pub x : ℕ
  pub y : ℕ
  pub w : ℕ
  pub h : ℕ

abbrev pub centred : ℕ → ℕ → ℕ → ℕ → CanvasRect
centred cw ch w h = record { x = (cw - w) / 2; y = (ch - h) / 2; w = w; h = h }

-- The client area is not negative.
unfoldable pub letterboxed_canvas : ℕ → ℕ → CanvasRect
letterboxed_canvas cw ch =
    let h = cw * 720 / 1280 in
    if ltb ch h then centred cw ch (ch * 1280 / 720) ch else centred cw ch cw h

-- `ReadCanvas`: an opaque copy with the rows in the other order.
unfoldable pub opaque : Bytes → Bytes
opaque pixels i = if i % 4 == 3 then 0xff else pixels i

unfoldable pub read_canvas : Bytes → Bytes
unfolding opaque
read_canvas pixels i =
    let row = 1280 * 4 in
    if ltb i (720 * row) then opaque pixels ((720 - 1 - i / row) * row + i % row) else 0

-- `MonotonicNs` from the counter and its frequency.
unfoldable pub monotonic_ns : ℕ → ℕ → ℕ
monotonic_ns freq t = t / freq * 10 ^ 9 + t % freq * 10 ^ 9 / freq

-- `Pacer`
pub record Pacer : Type 0 where
  pub next : ℕ
  pub timer : Bool

abbrev pub period_ns : ℕ
period_ns = 10 ^ 9 / 60

-- The clock is read at the start, and once more where the display paces; the answer is the time that
-- is slept until.
unfoldable pub pace_frame : ℕ → ℕ → Pacer → Pacer × Option ℕ
pace_frame now later p =
    let start = if p.next == 0 || ltb (p.next + 2 * period_ns) now then now else p.next in
    let early = not (p.next == 0) && ltb (now + period_ns / 8) p.next in
    if p.timer
    then (record p { next = start + period_ns }, some start)
    else (record p { next = later + period_ns }, if early then some p.next else none)

-- The keys and the controller's buttons that are bound, by the names of the Windows headers.
pub data Key : Type 0 where
  vk_left : Key
  vk_up : Key
  vk_right : Key
  vk_down : Key
  vk_return : Key
  vk_back : Key
  vk_escape : Key
  letter : ℕ → Key

pub data PadButton : Type 0 where
  pad_a : PadButton
  pad_b : PadButton
  pad_x : PadButton
  pad_y : PadButton
  left_thumb : PadButton
  right_thumb : PadButton
  left_shoulder : PadButton
  right_shoulder : PadButton
  start : PadButton
  back : PadButton
  dpad_left : PadButton
  dpad_up : PadButton
  dpad_right : PadButton
  dpad_down : PadButton

-- `XINPUT_GAMEPAD`, with the triggers as whether they are pulled beyond the threshold.
pub record Gamepad : Type 0 where
  pub down : PadButton → Bool
  pub left_trigger : Bool
  pub right_trigger : Bool
  pub thumb_lx : ℕ
  pub thumb_ly : ℕ
  pub thumb_rx : ℕ
  pub thumb_ry : ℕ

unfoldable pub key_bindings : List (Key × ℕ)
key_bindings =
    (vk_left, 2 ^ 12)
    ∷ (vk_up, 2 ^ 13)
    ∷ (vk_right, 2 ^ 14)
    ∷ (vk_down, 2 ^ 15)
    ∷ (letter b'X', 2 ^ 0)
    ∷ (letter b'Z', 2 ^ 1)
    ∷ (letter b'S', 2 ^ 2)
    ∷ (letter b'A', 2 ^ 3)
    ∷ (letter b'Q', 2 ^ 6)
    ∷ (letter b'W', 2 ^ 7)
    ∷ (letter b'E', 2 ^ 8)
    ∷ (letter b'R', 2 ^ 9)
    ∷ (vk_return, 2 ^ 10)
    ∷ (vk_back, 2 ^ 11)
    ∷ (vk_escape, bit_or (2 ^ 8) (2 ^ 9))
    ∷ []

unfoldable pub pad_bindings : List (PadButton × ℕ)
pad_bindings =
    (pad_b, 2 ^ 0)
    ∷ (pad_a, 2 ^ 1)
    ∷ (pad_y, 2 ^ 2)
    ∷ (pad_x, 2 ^ 3)
    ∷ (left_thumb, 2 ^ 4)
    ∷ (right_thumb, 2 ^ 5)
    ∷ (left_shoulder, 2 ^ 6)
    ∷ (right_shoulder, 2 ^ 7)
    ∷ (start, 2 ^ 10)
    ∷ (back, 2 ^ 11)
    ∷ (dpad_left, 2 ^ 12)
    ∷ (dpad_up, 2 ^ 13)
    ∷ (dpad_right, 2 ^ 14)
    ∷ (dpad_down, 2 ^ 15)
    ∷ []

-- `for (const KeyBinding& k : kKeyBindings) if (g_keys[k.vk]) out.buttons |= k.npad`
unfoldable pub join_bound {ℓ} : {A : Type ℓ} → (A → Bool) → List (A × ℕ) → ℕ → ℕ
join_bound held [] buttons = buttons
join_bound held ((key, mask) ∷ rest) buttons =
    join_bound held rest (if held key then bit_or buttons mask else buttons)

-- -32767, the axis of two keys of which the second wins, and `ClampAxis`.
abbrev pub axis_low : ℕ
axis_low = 2 ^ 32 - 32767

unfoldable pub axis_keys : Bool → Bool → ℕ
axis_keys low high = if high then 32767 else if low then axis_low else 0

unfoldable pub clamp_axis : ℕ → ℕ
clamp_axis v =
    if ltb v (2 ^ 31)
    then (if ltb 32767 v then 32767 else v)
    else if ltb v axis_low
    then axis_low
    else v

unfoldable pub from_keys : (Key → Bool) → Npad
unfolding join_bound key_bindings axis_keys
from_keys keys = record {
  connected = true;
  buttons = join_bound keys key_bindings 0;
  lx = axis_keys (keys (letter b'J')) (keys (letter b'L'));
  ly = axis_keys (keys (letter b'K')) (keys (letter b'I'));
  rx = axis_keys (keys (letter b'U')) (keys (letter b'O'));
  ry = 0;
}

abbrev pub or_axis : ℕ → ℕ → ℕ
or_axis old v = if old == 0 then clamp_axis v else old

unfoldable pub with_gamepad : Gamepad → Npad → Npad
unfolding join_bound pad_bindings clamp_axis
with_gamepad gp out =
    let bound = join_bound gp.down pad_bindings out.buttons in
    let left = if gp.left_trigger then bit_or bound (2 ^ 8) else bound in
    record out {
      buttons = if gp.right_trigger then bit_or left (2 ^ 9) else left;
      lx = or_axis out.lx gp.thumb_lx;
      ly = or_axis out.ly gp.thumb_ly;
      rx = or_axis out.rx gp.thumb_rx;
      ry = or_axis out.ry gp.thumb_ry;
    }

unfoldable pub add_gamepad : Option Gamepad → Npad → Npad
unfolding with_gamepad
add_gamepad none out = out
add_gamepad (some gp) out = with_gamepad gp out

-- `PollNpad`: the script's events and the frame, if a script is active.
unfoldable pub poll_npad : Option (ℕ × List Event) → (Key → Bool) → Option Gamepad → Npad
unfolding from_keys add_gamepad
poll_npad (some (frame, events)) keys pad = pad_state frame events
poll_npad none keys pad = add_gamepad pad (from_keys keys)

-- The slot in use and when the empty slots are scanned again.
pub record PadScan : Type 0 where
  pub index : Option ℕ
  pub next_scan : ℕ

-- The first of the slots from `i` on that answers.
unfoldable pub scan : (ℕ → Option Gamepad) → ℕ → ℕ → Option (ℕ × Gamepad)
scan slots zero i = none
scan slots (suc left) i =
    let rest = scan slots left (i + 1) in elim (slots i) [ none ↦ rest | some gp ↦ some (i, gp) ]

abbrev pub found_pad : PadScan → Option (ℕ × Gamepad) → PadScan × Option Gamepad
found_pad s none = (s, none)
found_pad s (some (i, gp)) = (record s { index = some i }, some gp)

-- From the rescan on: `XUSER_MAX_COUNT` is 4.
unfoldable pub rescan : (ℕ → Option Gamepad) → ℕ → PadScan → PadScan × Option Gamepad
unfolding scan
rescan slots now s =
    let lost = record s { index = none } in
    if ltb now s.next_scan
    then (lost, none)
    else found_pad (record lost { next_scan = now + 10 ^ 9 }) (scan slots 4 0)

abbrev pub answered_pad :
    PadScan → PadScan × Option Gamepad → Option Gamepad → PadScan × Option Gamepad
answered_pad s again none = again
answered_pad s again (some gp) = (s, some gp)

abbrev pub read_slot :
    (ℕ → Option Gamepad) → PadScan → PadScan × Option Gamepad → Option ℕ → PadScan × Option Gamepad
read_slot slots s again none = again
read_slot slots s again (some i) = answered_pad s again (slots i)

unfoldable pub read_pad : (ℕ → Option Gamepad) → ℕ → PadScan → PadScan × Option Gamepad
unfolding rescan
read_pad slots now s = read_slot slots s (rescan slots now s) s.index

-- What a frame's events of the script do: pictures and lines that are written, and whether the
-- program is asked to leave.
pub data Output : Type 0 where
  picture_file : List ℕ → Output
  line : ℕ → List ℕ → Output

unfoldable pub run_event : ℕ → EventKind → List Output × Bool → List Output × Bool
run_event frame (hold buttons) r = r
run_event frame (stick lx ly rx ry) r = r
run_event frame (shot name) (out, exit) = (picture_file name ∷ out, exit)
run_event frame (log text) (out, exit) = (line frame text ∷ out, exit)
run_event frame quit (out, exit) = (out, true)

unfoldable pub run_events : ℕ → List Event → List Output × Bool → List Output × Bool
unfolding run_event
run_events frame [] r = r
run_events frame (e ∷ rest) r = run_events frame rest (run_event frame e.kind r)

unfoldable pub run_script_events : ℕ → List Event → List Output × Bool → List Output × Bool
unfolding run_events
run_script_events frame events r = run_events frame (events_at frame events) r
