-- ===== src/Platform/Stream.antt =====
-- The sound stream of carbon-pc/src/platform/win32/AudioStream_wasapi.cpp: `Write` with its retries,
-- and `WaitSilently`. What Windows answers in a round of the loop is an argument. A sample is an
-- `int16_t`'s bit pattern; the frames of a call are not negative.
pub mod Dump
pub mod Sent
use open_carbon.Base.{
  ℕ, zero, suc, ◌+◌, ◌-◌, ◌*◌, ◌/◌, ◌^◌, List, [], ◌∷◌, ◌++◌, Option, none, some, Bool, true, false,
  not, ◌==◌, ◌&&◌, leb, if◌then◌else◌, min, u32,
}

-- `AudioStream::Impl`; the device is open when it has a render client.
pub record Stream : Type 0 where
  pub is_open : Bool
  pub buffer_frames : ℕ
  pub sample_rate : ℕ
  pub channels : ℕ
  pub next_retry_ms : ℕ
  pub mute : Bool
  pub silent_start_ns : ℕ
  pub silent_frames : ℕ

-- What a call of `Init` comes to: it fails before or at the start of the device, or the device is open
-- with a buffer.
pub data Opening : Type 0 where
  no_device : Opening
  not_started : Opening
  opened : ℕ → Opening

-- The answers of one round: the padding, the clocks, the opening of the default device, and whether
-- there is a buffer to write_samples to.
pub record Answer : Type 0 where
  pub padding : Option ℕ
  pub tick_ms : ℕ
  pub now_ns : ℕ
  pub opening : Opening
  pub has_buffer : Bool

-- `WaitSilently`, with the time that it sleeps until.
unfoldable pub wait_silently : ℕ → ℕ → Stream → Stream × ℕ
wait_silently now frames s =
    let begun =
      if s.silent_start_ns == 0 then record s { silent_start_ns = now; silent_frames = 0 } else s in
    let waited = record begun { silent_frames = begun.silent_frames + frames } in
    (waited, waited.silent_start_ns + waited.silent_frames * 10 ^ 9 / waited.sample_rate)

-- A round of the loop returns with the time that it has slept until, or goes on with some frames less.
pub data Turn : Type 0 where
  gives_up : Stream × ℕ → Turn
  goes_on : Stream → ℕ → Turn

-- The device that may have come back: a failure is tried again in two seconds.
unfoldable pub reopen : Answer → ℕ → Stream → Opening → Turn
unfolding wait_silently
reopen a frames s no_device =
    gives_up (wait_silently a.now_ns frames (record s { next_retry_ms = a.tick_ms + 2000 }))
reopen a frames s not_started = gives_up (
    wait_silently a.now_ns frames
      (record s { next_retry_ms = a.tick_ms + 2000; silent_start_ns = 0 }))
reopen a frames s (opened buffer) =
    goes_on (record s { is_open = true; buffer_frames = buffer; silent_start_ns = 0 }) 0

-- Without a device, or with one that no longer answers.
unfoldable pub without_device : Answer → ℕ → Stream → Turn
unfolding reopen wait_silently
without_device a frames s =
    let released = record s { is_open = false } in
    if not s.mute && leb s.next_retry_ms a.tick_ms
    then reopen a frames released a.opening
    else gives_up (wait_silently a.now_ns frames released)

-- With one: as many frames as its buffer has room for.
unfoldable pub with_device : Answer → ℕ → Stream → ℕ → Turn
with_device a frames s padding =
    let available = u32 (s.buffer_frames + 2 ^ 32 - padding) in
    if available == 0
    then goes_on s 0
    else if a.has_buffer
    then goes_on s (min available frames)
    else goes_on s 0

abbrev pub answered : Answer → ℕ → Stream → Option ℕ → Turn
answered a frames s none = without_device a frames s
answered a frames s (some padding) = with_device a frames s padding

unfoldable pub write_turn : Answer → ℕ → Stream → Turn
unfolding without_device with_device
write_turn a frames s =
    if s.is_open then answered a frames s a.padding else without_device a frames s

-- The first `n` samples, and the others.
abbrev pub taken : ℕ → List ℕ → List ℕ
taken zero xs = []
taken (suc n) [] = []
taken (suc n) (x ∷ xs) = x ∷ taken n xs

abbrev pub dropped : ℕ → List ℕ → List ℕ
dropped zero xs = xs
dropped (suc n) [] = []
dropped (suc n) (x ∷ xs) = dropped n xs

-- What `Write` has come to: the stream, the samples that the device has got, those that are left, and
-- the time slept until if there was no device.
pub record Written : Type 0 where
  pub stream : Stream
  pub sent : List ℕ
  pub left : List ℕ
  pub slept : Option ℕ

unfoldable pub after_turn : Turn → List ℕ → List ℕ → (Stream → ℕ → Option Written) → Option Written
after_turn (gives_up (s, until)) samples sent further =
    some (record { stream = s; sent = sent; left = samples; slept = some until })
after_turn (goes_on s n) samples sent further = further s n

-- The loop of `Write`, with one answer for each round; `none` is a loop that still waits.
unfoldable pub write_loop : List Answer → Stream → ℕ → List ℕ → List ℕ → Option Written
unfolding after_turn write_turn
write_loop answers s zero samples sent =
    some (record { stream = s; sent = sent; left = samples; slept = none })
write_loop [] s (suc frames) samples sent = none
write_loop (a ∷ rest) s (suc frames) samples sent =
    after_turn (write_turn a (suc frames) s) samples sent (λ s' n.
      write_loop rest s' (suc frames - n) (dropped (n * s'.channels) samples)
        (sent ++ taken (n * s'.channels) samples))

-- `Write` after its call of the dump.
unfoldable pub write_samples : List Answer → Stream → ℕ → List ℕ → Option Written
unfolding write_loop
write_samples answers s frames samples = write_loop answers s frames samples []
