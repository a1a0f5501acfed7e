-- ===== src/Audio/Out.antt =====
-- carbon-pc/src/platform/AudioOut.h and AudioOut.cpp. A buffer is its number; a volume is a float's
-- bit pattern, and `mix` the product of a sample and a volume. The clock answers when a period is due.
use open_carbon.Base.{
  ℕ, ◌+◌, ◌*◌, List, [], ◌∷◌, ◌++◌, Option, none, some, Bool, true, false, not, ◌&&◌, ◌||◌, Bytes,
  ltb, if◌then◌else◌,
}

-- `AudioOut::Impl`. `written` holds what the stream got so far.
pub record Out : Type 0 where
  pub frames : ℕ
  pub channels : ℕ
  pub queued : List (ℕ × Bytes)
  pub released : List ℕ
  pub mixed : List Bytes
  pub event : Bool
  pub volume : ℕ
  pub started : Bool
  pub stream_open : Bool
  pub stop : Bool
  pub taken : ℕ
  pub written : List Bytes

-- `AudioOut::Open`; `one` is the volume 1.0.
unfoldable pub open_out : ℕ → ℕ → ℕ → Out
open_out one channels frames = record {
  frames = frames;
  channels = channels;
  queued = [];
  released = [];
  mixed = [];
  event = false;
  volume = one;
  started = false;
  stream_open = false;
  stop = false;
  taken = 0;
  written = [];
}

unfoldable pub start_out : Out → Out
start_out o = record o { started = true }

unfoldable pub stop_out : Out → Out
stop_out o = record o { stop = true }

unfoldable pub set_volume : ℕ → Out → Out
set_volume volume o = record o { volume = volume }

module _ (mix : ℕ → ℕ → ℕ) where
  -- A period: of the buffer that waits longest, or of silence.
  unfoldable pub take_from : List (ℕ × Bytes) → Out → Out
  take_from [] o = record o { mixed = o.mixed ++ ((λ i. 0) ∷ []); taken = o.taken + 1 }
  take_from ((buffer, content) ∷ rest) o = record o {
    queued = rest;
    released = o.released ++ (buffer ∷ []);
    event = true;
    mixed =
        o.mixed
        ++ ((λ i. (if ltb i (o.frames * o.channels) then mix o.volume (content i) else 0)) ∷ []);
    taken = o.taken + 1;
  }

  unfoldable pub take : Out → Out
  unfolding take_from
  take o = take_from o.queued o

  -- The first buffer after the start opens the stream and is taken at once.
  unfoldable pub append_out : ℕ → Bytes → Out → Out
  unfolding take
  append_out buffer content o =
      let filled = record o { queued = o.queued ++ ((buffer, content) ∷ []) } in
      if o.started && not o.stream_open then take (record filled { stream_open = true }) else filled

  -- One turn of the device thread: a finished period is written, or a period is taken if it is due.
  unfoldable pub write_period : List Bytes → Out → Out
  write_period [] o = o
  write_period (block ∷ rest) o = record o { mixed = rest; written = o.written ++ (block ∷ []) }

  -- Nothing changes while the thread waits, and once it has ended.
  unfoldable pub device_turn : Bool → List Bytes → Out → Out
  unfolding write_period take
  device_turn due (block ∷ rest) o = write_period (block ∷ rest) o
  device_turn due [] o = if o.stop then o else if o.stream_open && due then take o else o

-- `GetReleased`: the buffer, or `none` for the null pointer.
unfoldable pub get_released : List ℕ → Out → Option ℕ × Out
get_released [] o = (none, o)
get_released (buffer ∷ rest) o = (some buffer, record o { released = rest })

-- `WaitEvent` goes on when this holds, and clears the event.
unfoldable pub can_wake : Out → Bool
can_wake o = o.event || o.stop

unfoldable pub clear_event : Out → Out
clear_event o = record o { event = false }
