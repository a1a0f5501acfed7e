-- ===== src/Tests/Platform.antt =====
-- The theorems on the window, the controller and the sound stream at concrete answers.
use open_carbon.Base.{
  ℕ, ◌-◌, ◌^◌, ◌≡◌, refl, arith, max, List, [], ◌∷◌, none, some, Bool, true, false, bit,
}
use open_carbon.Platform.Window.{Key, vk_escape, PadButton, pad_a, Gamepad, key_bindings, poll_npad}
use open_carbon.Platform.Window.Pad.{bound_to, on_gamepad, AxesInRange, poll_npad-held}
use open_carbon.Platform.Stream.{Stream, Answer, no_device, write_samples}
use open_carbon.Platform.Stream.Sent.{InOrder, all_sent, write_samples-InOrder, write_samples-ready}

abbrev escape : Key → Bool
escape vk_escape = true
escape _ = false

abbrev only_a : PadButton → Bool
only_a pad_a = true
only_a _ = false

-- The button at the bottom and a stick at its end.
abbrev pad : Gamepad
pad = record {
  down = only_a;
  left_trigger = false;
  right_trigger = true;
  thumb_lx = 2 ^ 32 - 32768;
  thumb_ly = 0;
  thumb_rx = 32767;
  thumb_ry = 5;
}

poll_npad-held_example :
    (bit (poll_npad none escape (some pad)).buttons 9
      ≡ max (bound_to escape key_bindings 9) (on_gamepad (some pad) 9))
    × AxesInRange (poll_npad none escape (some pad))
poll_npad-held_example =
    poll_npad-held escape (some pad) 9 (omega arith, omega arith, omega arith, omega arith)

abbrev stream : Stream
stream = record {
  is_open = true;
  buffer_frames = 4;
  sample_rate = 48000;
  channels = 2;
  next_retry_ms = 0;
  mute = false;
  silent_start_ns = 0;
  silent_frames = 0;
}

-- Room for one frame, and a device that has gone.
abbrev room : Answer
room = record { padding = some 3; tick_ms = 5; now_ns = 7; opening = no_device; has_buffer = true }

abbrev gone : Answer
gone = record room { padding = none }

abbrev three_frames : List ℕ
three_frames = 1 ∷ 2 ∷ 3 ∷ 4 ∷ 5 ∷ 6 ∷ []

write_samples-InOrder_example :
    InOrder three_frames (write_samples (room ∷ gone ∷ []) stream 3 three_frames)
write_samples-InOrder_example = write_samples-InOrder (room ∷ gone ∷ []) stream 3 three_frames

write_samples-ready_example :
    write_samples (room ∷ room ∷ room ∷ []) stream 3 three_frames
    ≡ some (all_sent stream three_frames)
write_samples-ready_example =
    write_samples-ready (room ∷ room ∷ room ∷ []) stream 3 three_frames refl
      (
        (3, refl, omega arith, omega arith, refl),
        (
          (3, refl, omega arith, omega arith, refl),
          ((3, refl, omega arith, omega arith, refl), tt),
        ),
      )
      (omega arith) refl
