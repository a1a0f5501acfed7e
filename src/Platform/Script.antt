-- ===== src/Platform/Script.antt =====
-- `ParseButtons`, `PadState` and `EventsAt` of carbon-pc/src/platform/win32/Script.cpp. A frame is an
-- `int64_t` that is not negative; the loaded events are an argument.
use open_carbon.Base.{
  ℕ, zero, suc, ◌+◌, ◌*◌, max, List, [], ◌∷◌, ◌++◌, Option, none, some, Bool, true, false, ◌&&◌,
  ◌==◌, leb, ltb, if◌then◌else◌, bit, bit_or, bit-bit_or, ◌≡◌, refl, ◌∙◌, arith, same,
}
use open_carbon.App.Input.{Npad}

-- `Event::Kind` with the fields of its kind.
pub data EventKind : Type 0 where
  hold : ℕ → EventKind
  stick : ℕ → ℕ → ℕ → ℕ → EventKind
  shot : List ℕ → EventKind
  log : List ℕ → EventKind
  quit : EventKind

pub record Event : Type 0 where
  pub kind : EventKind
  pub frame : ℕ
  pub frames : ℕ

-- `kNames`, in the order of the bits.
unfoldable pub button_names : List (List ℕ)
button_names =
    (b'A' ∷ [])
    ∷ (b'B' ∷ [])
    ∷ (b'X' ∷ [])
    ∷ (b'Y' ∷ [])
    ∷ (b'L' ∷ b'S' ∷ b'T' ∷ b'I' ∷ b'C' ∷ b'K' ∷ [])
    ∷ (b'R' ∷ b'S' ∷ b'T' ∷ b'I' ∷ b'C' ∷ b'K' ∷ [])
    ∷ (b'L' ∷ [])
    ∷ (b'R' ∷ [])
    ∷ (b'Z' ∷ b'L' ∷ [])
    ∷ (b'Z' ∷ b'R' ∷ [])
    ∷ (b'P' ∷ b'L' ∷ b'U' ∷ b'S' ∷ [])
    ∷ (b'M' ∷ b'I' ∷ b'N' ∷ b'U' ∷ b'S' ∷ [])
    ∷ (b'L' ∷ b'E' ∷ b'F' ∷ b'T' ∷ [])
    ∷ (b'U' ∷ b'P' ∷ [])
    ∷ (b'R' ∷ b'I' ∷ b'G' ∷ b'H' ∷ b'T' ∷ [])
    ∷ (b'D' ∷ b'O' ∷ b'W' ∷ b'N' ∷ [])
    ∷ []

-- The bit of a name, from the bit `mask` of the first name on; 0 if there is none.
unfoldable pub button_of : List (List ℕ) → ℕ → List ℕ → ℕ
button_of [] mask name = 0
button_of (other ∷ rest) mask name =
    let found = button_of rest (mask * 2) name in if same name other then mask else found

-- `std::getline` at `+`: the pieces, of which the last is left out when it is empty.
unfoldable pub pieces : List ℕ → List ℕ → List (List ℕ)
pieces [] [] = []
pieces (c ∷ piece) [] = (c ∷ piece) ∷ []
pieces piece (c ∷ rest) =
    let ended = piece ∷ pieces [] rest in
    let longer = pieces (piece ++ (c ∷ [])) rest in if c == b'+' then ended else longer

unfoldable pub join_buttons : ℕ → List (List ℕ) → Option ℕ
unfolding button_of button_names
join_buttons out [] = if out == 0 then none else some out
join_buttons out (name ∷ rest) =
    let further = join_buttons (bit_or out (button_of button_names 1 name)) rest in
    if button_of button_names 1 name == 0 then none else further

-- `none` for `false`.
unfoldable pub parse_buttons : List ℕ → Option ℕ
unfolding join_buttons pieces
parse_buttons spec = join_buttons 0 (pieces [] spec)

-- One event of the loop in `PadState`.
unfoldable pub apply_event : EventKind → Npad → Npad
apply_event (hold buttons) pad = record pad { buttons = bit_or pad.buttons buttons }
apply_event (stick lx ly rx ry) pad = record pad { lx = lx; ly = ly; rx = rx; ry = ry }
apply_event (shot name) pad = pad
apply_event (log text) pad = pad
apply_event quit pad = pad

-- The frames in which an event lasts.
abbrev pub covers : Event → ℕ → Bool
covers e frame = leb e.frame frame && ltb frame (e.frame + e.frames)

unfoldable pub apply_events : ℕ → List Event → Npad → Npad
unfolding apply_event
apply_events frame [] pad = pad
apply_events frame (e ∷ rest) pad =
    apply_events frame rest (if covers e frame then apply_event e.kind pad else pad)

unfoldable pub pad_state : ℕ → List Event → Npad
unfolding apply_events
pad_state frame events =
    apply_events frame events
      (record { connected = true; buttons = 0; lx = 0; ly = 0; rx = 0; ry = 0 })

abbrev pub fires : EventKind → Bool
fires (hold buttons) = false
fires (stick lx ly rx ry) = false
fires (shot name) = true
fires (log text) = true
fires quit = true

unfoldable pub events_at : ℕ → List Event → List Event
events_at frame [] = []
events_at frame (e ∷ rest) =
    let further = events_at frame rest in
    if e.frame == frame && fires e.kind then e ∷ further else further

-- Whether an event holds a button in a frame, as 0 or 1.
abbrev pub held_by : EventKind → ℕ → ℕ
held_by (hold buttons) k = bit buttons k
held_by (stick lx ly rx ry) k = 0
held_by (shot name) k = 0
held_by (log text) k = 0
held_by quit k = 0

abbrev pub held_in : ℕ → List Event → ℕ → ℕ
held_in frame [] k = 0
held_in frame (e ∷ rest) k =
    max (if covers e frame then held_by e.kind k else 0) (held_in frame rest k)

pub apply_event-bit :
    (kind : EventKind) (pad : Npad) (k : ℕ)
    → bit (apply_event kind pad).buttons k ≡ max (bit pad.buttons k) (held_by kind k)
unfolding apply_event
apply_event-bit (hold buttons) pad k = bit-bit_or k pad.buttons buttons
apply_event-bit (stick lx ly rx ry) pad k = omega arith
apply_event-bit (shot name) pad k = omega arith
apply_event-bit (log text) pad k = omega arith
apply_event-bit quit pad k = omega arith

pub if-bit :
    (t : Bool) (kind : EventKind) (pad : Npad) (k : ℕ)
    → bit (if t then apply_event kind pad else pad).buttons k
      ≡ max (bit pad.buttons k) (if t then held_by kind k else 0)
if-bit true kind pad k = apply_event-bit kind pad k
if-bit false kind pad k = omega arith

pub apply_events-bit :
    (frame : ℕ) (events : List Event) (pad : Npad) (k : ℕ)
    → bit (apply_events frame events pad).buttons k
      ≡ max (bit pad.buttons k) (held_in frame events k)
unfolding apply_events
apply_events-bit frame [] pad k = omega arith
apply_events-bit frame (e ∷ rest) pad k =
    apply_events-bit frame rest (if covers e frame then apply_event e.kind pad else pad) k
    ∙ omega (arith, if-bit (covers e frame) e.kind pad k)

pub bit_zero : (k : ℕ) → bit 0 k ≡ 0
bit_zero zero = refl
bit_zero (suc k) = bit_zero k

-- A button is held in a frame exactly if one of the script's events that last then holds it.
pub pad_state-bit :
    (frame : ℕ) (events : List Event) (k : ℕ)
    → bit (pad_state frame events).buttons k ≡ held_in frame events k
unfolding pad_state
pad_state-bit frame events k = omega (
  arith,
  bit_zero k,
  apply_events-bit frame events
      (record { connected = true; buttons = 0; lx = 0; ly = 0; rx = 0; ry = 0 }) k,
)
