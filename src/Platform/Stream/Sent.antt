-- ===== src/Platform/Stream/Sent.antt =====
-- What `Write` of carbon-pc/src/platform/win32/AudioStream_wasapi.cpp hands to the device.
use native.Mathlib.Nat.{mul-sub, mul_comm}
use mathlib.Core.List.{append_assoc, append-nil}
use open_carbon.Base.{
  ℕ, zero, suc, ◌-◌, ◌*◌, ◌^◌, ◌≤◌, ◌<◌, ◌≡◌, refl, ap, ◌∙◌, arith, List, [], ◌∷◌, ◌++◌, Option,
  none, some, true, All, length, min,
}
use open_carbon.Platform.Stream.{
  Stream, Answer, Turn, gives_up, goes_on, Written, write_turn, with_device, after_turn, write_loop,
  write_samples, taken, dropped,
}

taken-dropped : (n : ℕ) (xs : List ℕ) → taken n xs ++ dropped n xs ≡ xs
taken-dropped zero xs = refl
taken-dropped (suc n) [] = refl
taken-dropped (suc n) (x ∷ xs) = ap (λ ys. x ∷ ys) (taken-dropped n xs)

-- A loop that returns has handed out the samples in their order, without a gap, up to those left.
abbrev pub InOrder : List ℕ → Option Written → Type 0
InOrder samples none = Unit
InOrder samples (some w) = w.sent ++ w.left ≡ samples

after_turn-InOrder :
    (t : Turn) (samples sent all : List ℕ) (further : Stream → ℕ → Option Written)
    → sent ++ samples ≡ all
    → ((s : Stream) (n : ℕ) → InOrder all (further s n))
    → InOrder all (after_turn t samples sent further)
unfolding after_turn
after_turn-InOrder (gives_up (s, until)) samples sent all further h k = h
after_turn-InOrder (goes_on s n) samples sent all further h k = k s n

write_loop-InOrder :
    (answers : List Answer) (s : Stream) (frames : ℕ) (samples sent all : List ℕ)
    → sent ++ samples ≡ all
    → InOrder all (write_loop answers s frames samples sent)
unfolding write_loop
write_loop-InOrder answers s zero samples sent all h = h
write_loop-InOrder [] s (suc frames) samples sent all h = tt
write_loop-InOrder (a ∷ rest) s (suc frames) samples sent all h =
    after_turn-InOrder (write_turn a (suc frames) s) samples sent all _ h (λ s' n.
      let size = n * s'.channels in
      write_loop-InOrder rest s' _ _ _ all (
        append_assoc sent (taken size samples) (dropped size samples)
        ∙ (ap (λ xs. sent ++ xs) (taken-dropped size samples) ∙ h)))

-- `Write` hands the device a beginning of its samples: what it has handed out and what it has left, if
-- it returns, are together the samples in their order.
pub write_samples-InOrder :
    (answers : List Answer) (s : Stream) (frames : ℕ) (samples : List ℕ)
    → InOrder samples (write_samples answers s frames samples)
unfolding write_samples
write_samples-InOrder answers s frames samples =
    write_loop-InOrder answers s frames samples [] samples refl

-- A device that takes at least a frame in a round.
abbrev pub IsReady : Stream → Answer → Type 0
IsReady s a =
    (p : ℕ) × (a.padding ≡ some p)
    × (p < s.buffer_frames)
    × (s.buffer_frames < 2 ^ 32)
    × (a.has_buffer ≡ true)

with_device-ready :
    (a : Answer) (frames : ℕ) (s : Stream) (p : ℕ)
    → p < s.buffer_frames
    → s.buffer_frames < 2 ^ 32
    → a.has_buffer ≡ true
    → with_device a frames s p ≡ goes_on s (min (s.buffer_frames - p) frames)
unfolding with_device
with_device-ready a frames s p h k b = ground arith

write_turn-ready :
    (a : Answer) (frames : ℕ) (s : Stream)
    → s.is_open ≡ true
    → IsReady s a
    → (n : ℕ) × ((0 < frames → 0 < n) × (n ≤ frames) × (write_turn a frames s ≡ goes_on s n))
unfolding write_turn
write_turn-ready a frames s is_open (p, answer, room, small, buffer) = (
  min (s.buffer_frames - p) frames,
  (
    λ some_left. omega arith,
    omega arith,
    simp (is_open, answer) (with_device-ready a frames s p room small buffer),
  ),
)

length-dropped : (n : ℕ) (xs : List ℕ) → length (dropped n xs) ≡ length xs - n
length-dropped zero xs = omega arith
length-dropped (suc n) [] = omega arith
length-dropped (suc n) (x ∷ xs) = omega (arith, length-dropped n xs)

none_left : (xs : List ℕ) → length xs ≡ 0 → xs ≡ []
none_left [] h = refl
none_left (x ∷ xs) h = absurd (omega arith)

fewer_frames : (frames n c : ℕ) → (frames - n) * c ≡ frames * c - n * c
fewer_frames frames n c =
    omega (arith, mul_comm (frames - n) c, mul-sub c frames n, mul_comm c frames, mul_comm c n)

-- The answer of a `Write` that leaves nothing.
abbrev pub all_sent : Stream → List ℕ → Written
all_sent s samples = record { stream = s; sent = samples; left = []; slept = none }

write_loop-ready :
    (answers : List Answer) (s : Stream) (frames : ℕ) (samples sent : List ℕ)
    → s.is_open ≡ true
    → All (IsReady s) answers
    → frames ≤ length answers
    → length samples ≡ frames * s.channels
    → write_loop answers s frames samples sent ≡ some (all_sent s (sent ++ samples))
unfolding write_loop after_turn
write_loop-ready answers s zero samples sent o ready enough whole =
    let empty = none_left samples (omega (arith, whole)) in rw empty (rw (append-nil sent) refl)
write_loop-ready [] s (suc frames) samples sent o ready enough whole = absurd (omega arith)
write_loop-ready (a ∷ rest) s (suc frames) samples sent o ready enough whole =
    let (n, (some_frames, within, turn)) = write_turn-ready a (suc frames) s o ready.0 in
    let size = n * s.channels in
    let more : 0 < n = some_frames (omega arith) in
    rw turn (
      write_loop-ready rest s (suc frames - n) (dropped size samples) (sent ++ taken size samples) o
        ready.1 (omega arith)
        (length-dropped size samples ∙ omega (arith, whole, fewer_frames (suc frames) n s.channels))
      ∙ ap (λ xs. some (all_sent s xs))
          (append_assoc sent (taken size samples) (dropped size samples)
            ∙ ap (λ xs. sent ++ xs) (taken-dropped size samples)))

-- A device that takes at least a frame in every round gets all the samples within as many rounds as
-- there are frames, and `Write` returns without having slept.
pub write_samples-ready :
    (answers : List Answer) (s : Stream) (frames : ℕ) (samples : List ℕ)
    → s.is_open ≡ true
    → All (IsReady s) answers
    → frames ≤ length answers
    → length samples ≡ frames * s.channels
    → write_samples answers s frames samples ≡ some (all_sent s samples)
unfolding write_samples
write_samples-ready answers s frames samples o ready enough whole =
    write_loop-ready answers s frames samples [] o ready enough whole
