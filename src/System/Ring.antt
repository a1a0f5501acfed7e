-- ===== src/System/Ring.antt =====
-- The sample ring of carbon-pc/src/gb/Audio.cpp, which the core fills and the audio thread drains.
-- A sample is one `int16_t`, kept as its bit pattern; a frame is two of them.
pub mod Fifo
use open_carbon.Base.{
  ℕ, ◌+◌, ◌-◌, ◌*◌, ◌/◌, List, Bytes, min, ltb, leb, ◌&&◌, if◌then◌else◌, length, get_or,
}

pub record Ring : Type 0 where
  pub samples : Bytes
  pub fill : ℕ

abbrev pub ring_frames : ℕ
ring_frames = 0x2000

-- `AudioRingClear`: a ring full of silence.
unfoldable pub clear : Ring → Ring
clear r = record { samples = λ _. 0; fill = ring_frames }

-- The append in `AudioPumpFrameSamples`; what would overflow is dropped.
unfoldable pub append : Ring → List ℕ → Ring
append r new =
    if ltb (r.fill + length new) ring_frames
    then record {
      samples = λ j.
          (if leb (r.fill * 2) j && ltb j (r.fill * 2 + length new)
            then get_or new (j - r.fill * 2) 0
            else r.samples j);
      fill = r.fill + length new / 2;
    }
    else r

-- One output buffer of `AudioThreadMain`: `frames` is its size. What the ring does not fill keeps
-- the buffer's stale samples.
unfoldable pub drain : ℕ → Ring → Bytes → Ring × Bytes
drain frames r buffer =
    let n = min r.fill frames in
    (
      record {
        samples = λ j.
            (if ltb 0 (r.fill - n) && ltb j ((r.fill - n) * 2)
              then r.samples (j + n * 2)
              else r.samples j);
        fill = r.fill - n;
      },
      λ j. (if ltb j (n * 2) then r.samples j else buffer j),
    )
