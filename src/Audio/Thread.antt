-- ===== src/Audio/Thread.antt =====
-- `AudioThreadMain` of carbon-pc/src/gb/Audio.cpp, one step at a time, beside the device thread of
-- carbon-pc/src/platform/AudioOut.cpp and the thread that runs the console. A step is what one of them
-- does under a lock. The levels of the volume are floats' bit patterns.
pub mod Line
pub mod Awake
pub mod Waits
use open_carbon.Base.{
  ℕ, zero, suc, ◌+◌, ◌*◌, List, [], ◌∷◌, ◌++◌, Option, none, some, Bool, true, false, not, ◌&&◌,
  ◌||◌, ◌==◌, Bytes, if◌then◌else◌, ◌≡◌,
}
use open_carbon.System.Ring
use open_carbon.System.Ring.{Ring, append, drain}
use open_carbon.Audio.Out.{
  Out, open_out, start_out, stop_out, set_volume, append_out, device_turn, get_released, can_wake,
  clear_event,
}

-- The arithmetic of `outputVolume`: 0.0, 1.0, a step up and down, and the tests against the target and
-- the floor.
pub record Volume : Type 0 where
  pub quiet : ℕ
  pub full : ℕ
  pub louder : ℕ → ℕ
  pub quieter : ℕ → ℕ
  pub past_full : ℕ → Bool
  pub past_floor : ℕ → Bool
  pub mix : ℕ → ℕ → ℕ

-- Where the thread stands: before the first and the second buffer, before the volume is set to 0, at
-- the head of the loop, at the two fades, at `WaitEvent`, at `GetReleased`, with a buffer to fill, with
-- a buffer to append, and at its end.
pub data Place : Type 0 where
  first_append : Place
  second_append : Place
  muting : Place
  loop_head : Place
  raising : Place
  lowering : Place
  waiting : Place
  releasing : Place
  filling : ℕ → Place
  appending : ℕ → Place
  finished : Place

-- `blocks` is the memory of the buffers, by their number.
pub record Player : Type 0 where
  pub place : Place
  pub out : Out
  pub blocks : ℕ → Bytes
  pub ring : Ring
  pub thread_running : Bool
  pub output_volume : ℕ
  pub fade_in : Bool
  pub fade_out : Bool

abbrev pub release_place : Option ℕ → Place
release_place none = loop_head
release_place (some buffer) = filling buffer

module _ (v : Volume) (a b : ℕ) where
  -- `AudioThreadStart`, and the thread up to the first `Append`; the blocks are `a` and `b`.
  unfoldable pub start_player : (ℕ → Bytes) → Ring → Player
  unfolding open_out start_out
  start_player blocks ring = record {
    place = first_append;
    out = start_out (open_out v.full 2 0x800);
    blocks = blocks;
    ring = ring;
    thread_running = true;
    output_volume = v.quiet;
    fade_in = true;
    fade_out = false;
  }

  unfoldable pub fade_up : Player → Player
  unfolding set_volume
  fade_up p =
      let level = v.louder p.output_volume in
      let done = v.past_full level in
      let next = if done then v.full else level in
      if p.fade_in
      then record p { output_volume = next; fade_in = not done; out = set_volume next p.out }
      else p

  unfoldable pub fade_down : Player → Player
  unfolding set_volume
  fade_down p =
      let level = v.quieter p.output_volume in
      let done = v.past_floor level in
      let next = if done then v.quiet else level in
      if p.fade_out
      then record p { output_volume = next; fade_out = not done; out = set_volume next p.out }
      else p

  -- What the ring holds goes to the buffer.
  unfoldable pub fill_buffer : ℕ → Player → Player
  fill_buffer buffer p =
      let (ring, content) = drain 0x800 p.ring (p.blocks buffer) in
      record p {
        place = appending buffer;
        ring = ring;
        blocks = λ other. (if other == buffer then content else p.blocks other);
      }

  unfoldable pub append_block : ℕ → Place → Player → Player
  unfolding append_out
  append_block buffer next p = record p {
    place = next;
    out = append_out v.mix buffer (p.blocks buffer) p.out;
  }

  -- One step of the audio thread; at `WaitEvent` it stays where it is until the event.
  unfoldable pub thread_turn : Place → Player → Player
  unfolding append_block fade_up fade_down fill_buffer set_volume stop_out clear_event get_released
  thread_turn first_append p = append_block a second_append p
  thread_turn second_append p = append_block b muting p
  thread_turn muting p = record p { place = loop_head; out = set_volume v.quiet p.out }
  -- The end of the loop stops the device.
  thread_turn loop_head p =
      if p.thread_running
      then record p { place = raising }
      else record p { place = finished; out = stop_out p.out }
  thread_turn raising p = record (fade_up p) { place = lowering }
  thread_turn lowering p = record (fade_down p) { place = waiting }
  thread_turn waiting p =
      if can_wake p.out then record p { place = releasing; out = clear_event p.out } else p
  thread_turn releasing p =
      let (buffer, out) = get_released p.out.released p.out in
      record p { place = release_place buffer; out = out }
  thread_turn (filling buffer) p = fill_buffer buffer p
  thread_turn (appending buffer) p = append_block buffer releasing p
  thread_turn finished p = p

  -- What can happen: a step of the thread, of the device, and of the console's thread, which appends
  -- samples, clears the ring and ends the thread.
  pub data Step : Player → Player → Type 0 where
    thread : (p : Player) → Step p (thread_turn p.place p)
    device :
        (p : Player) (due : Bool)
        → Step p (record p { out = device_turn v.mix due p.out.mixed p.out })
    samples : (p : Player) (new : List ℕ) → Step p (record p { ring = append p.ring new })
    clear : (p : Player) → Step p (record p { ring = Ring.clear p.ring })
    end_thread : (p : Player) → Step p (record p { thread_running = false })

  pub data Played : Player → Type 0 where
    start : (blocks : ℕ → Bytes) (ring : Ring) → Played (start_player blocks ring)
    step : {p q : Player} → Played p → Step p q → Played q
