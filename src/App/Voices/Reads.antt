-- ===== src/App/Voices/Reads.antt =====
-- Which samples `Voice::Mix` of carbon-pc/src/app/MenuAudio.cpp reads.
use native.Mathlib.Nat.{div-zero, mul-le-mul_right, div-mul-le_self, add-mul}
use mathlib.Core.Path.{subst}
use open_carbon.Base.{
  ℕ, zero, suc, ◌+◌, ◌-◌, ◌*◌, ◌/◌, ◌^◌, ◌≤◌, ◌<◌, ◌≡◌, refl, sym, ◌∙◌, arith, List, [], ◌∷◌,
  Option, none, some, Bool, true, false, ltb, if◌then◌else◌, Bytes, not, ◌||◌, ◌==◌, Bool-cases,
  inl, inr,
}
use open_carbon.App.Wave.{Wave}
use open_carbon.Screen.{Floats}
use open_carbon.App.Voices.{
  Positions, Voice, total_frames, next_frame, add_frame, after_frame, put_first, mix_frames, mix,
}

-- The same voice with other bytes behind its samples.
abbrev pub with_pcm : Bytes → Voice → Voice
with_pcm pcm v = record v { wave = record (v.wave) { pcm = pcm } }

-- For positions below 2 ^ 53, where a double still tells whole frames apart: a step moves on by at most
-- `stride` whole frames, and a step back by whole frames is exact.
pub record Steady (ps : Positions) (step stride : ℕ) : Type 0 where
  pub forward : (p : ℕ) → ps.whole p < 2 ^ 53 → ps.whole (ps.advance p step) ≤ ps.whole p + stride
  pub backward :
      (p n : ℕ) → ps.whole p < 2 ^ 53 → n ≤ ps.whole p → ps.whole (ps.back p n) + n ≡ ps.whole p

-- A looping voice has more frames than a step is long, and fewer than doubles tell apart, and stands
-- less than a step past its end.
pub record Loops (ps : Positions) (stride : ℕ) (v : Voice) : Type 0 where
  pub long_enough : stride < total_frames v.wave
  pub countable : total_frames v.wave + stride ≤ 2 ^ 53
  pub near : ps.whole v.pos + 2 ≤ total_frames v.wave + stride

-- What `next_frame` answers for it.
abbrev Reads : Positions → ℕ → ℕ → Voice → Voice × Option ℕ → Type 0
Reads ps step stride v (v', none) = Unit
Reads ps step stride v (v', some i) =
    (i + 1 < total_frames v.wave)
    × (v'.wave ≡ v.wave)
    × (v'.loop ≡ v.loop)
    × (v.loop ≡ true → Loops ps stride (record v' { pos = ps.advance v'.pos step }))

-- At the end of the wave: a looping voice goes back to its beginning, another one stops.
past_end :
    (ps : Positions) (step stride : ℕ) (v : Voice)
    → Steady ps step stride
    → (v.loop ≡ true → Loops ps stride v)
    → total_frames v.wave ≤ ps.whole v.pos + 1
    → (l : Bool) → v.loop ≡ l
    → let begun = record v { pos = ps.back v.pos (total_frames v.wave - 1) } in
      Reads ps step stride v
        (if l then (begun, some (ps.whole begun.pos)) else (record v { playing = false }, none))
past_end ps step stride v steady loops end false off = tt
past_end ps step stride v steady loops end true on =
    let total = total_frames v.wave in
    let start = ps.back v.pos (total - 1) in
    let looped = loops on in
    let long = looped.long_enough in
    let near = looped.near in
    let few = looped.countable in
    let exact : ps.whole start + (total - 1) ≡ ps.whole v.pos =
      steady.backward v.pos (total - 1) (omega (arith, near, few)) (omega arith) in
    (
      omega (arith, exact, long, near),
      refl,
      refl,
      λ on'. record {
        long_enough = long;
        countable = few;
        near =
            omega
              (arith, exact, long, near, steady.forward start (omega (arith, exact, near, few)));
      },
    )

next_frame-Reads :
    (ps : Positions) (step stride : ℕ) (v : Voice)
    → Steady ps step stride
    → (v.loop ≡ true → Loops ps stride v)
    → Reads ps step stride v (next_frame ps v)
unfolding next_frame
next_frame-Reads ps step stride v steady loops =
    let total = total_frames v.wave in
    let here = ps.whole v.pos in
    let begun = ps.back v.pos (total - 1) in
    elim (Bool-cases (ltb (here + 1) total)) [
      | inl inside ↦ rw inside (
        ground arith,
        refl,
        refl,
        λ on. record {
          long_enough = (loops on).long_enough;
          countable = (loops on).countable;
          near = ground (arith, steady.forward v.pos (ground (arith, (loops on).countable)));
        },
      )
      | inr at_end ↦ rw at_end (past_end ps step stride v steady loops (ground arith) v.loop refl)
    ]

-- The places of a frame's samples and of the next one's, in a wave that has both.
places :
    (size ch i : ℕ)
    → i + 1 < size / ch
    → ((i + 1) * ch < size)
      × (i * ch < size)
      × (1 < ch → (i + 1) * ch + 1 < size)
      × (1 < ch → i * ch + 1 < size)
places size zero i h = absurd (omega (arith, div-zero size))
places size (suc c) i h =
    let two_more : i + 2 ≤ size / suc c = omega arith in
    let fits = mul-le-mul_right (suc c) two_more in
    let whole = div-mul-le_self size (suc c) in
    let one = add-mul i 1 (suc c) in
    let two = add-mul i 2 (suc c) in
    (
      omega (arith, fits, whole, one, two),
      omega (arith, fits, whole, one, two),
      λ stereo. omega (arith, fits, whole, one, two),
      λ stereo. omega (arith, fits, whole, one, two),
    )

next_frame-with_pcm :
    (ps : Positions) (pcm : Bytes) (v : Voice)
    → next_frame ps (with_pcm pcm v) ≡ (with_pcm pcm (next_frame ps v).0, (next_frame ps v).1)
unfolding next_frame
next_frame-with_pcm ps pcm v = ground arith

-- Bytes that are the wave's own up to its size.
abbrev pub Agrees : Bytes → Wave → Type 0
Agrees pcm w = (i : ℕ) → i < w.pcm_size → pcm i ≡ w.pcm i

add_frame-with_pcm :
    (fl : Floats) (ps : Positions) (pcm : Bytes) (v : Voice) (i : ℕ) (frame : ℕ × ℕ)
    → Agrees pcm v.wave
    → i + 1 < total_frames v.wave
    → add_frame fl ps (with_pcm pcm v) i frame ≡ add_frame fl ps v i frame
unfolding add_frame
add_frame-with_pcm fl ps pcm v i frame agree within =
    let ch = v.wave.channels in
    let (next, here, next_right, here_right) = places v.wave.pcm_size ch i within in
    let a = agree (i * ch) here in
    let b = agree ((i + 1) * ch) next in
    elim (Bool-cases (ltb 1 ch)) [
      | inl stereo ↦
          let c = agree (i * ch + 1) (here_right (ground arith)) in
          let d = agree ((i + 1) * ch + 1) (next_right (ground arith)) in simp (stereo, a, b, c, d)
      | inr mono ↦ simp (mono, a, b)
    ]

-- What the two voices leave.
abbrev pub swapped : Bytes → Voice × List (ℕ × ℕ) → Voice × List (ℕ × ℕ)
swapped pcm (v, frames) = (with_pcm pcm v, frames)

after_frame-swapped :
    (fl : Floats) (ps : Positions) (step stride : ℕ) (pcm : Bytes) (v : Voice) (frame : ℕ × ℕ)
    (others : List (ℕ × ℕ)) (o : Voice × Option ℕ)
    → Agrees pcm v.wave
    → Reads ps step stride v o
    → ((w : Voice)
        → Agrees pcm w.wave
        → (w.loop ≡ true → Loops ps stride w)
        → mix_frames fl ps step (with_pcm pcm w) others
          ≡ swapped pcm (mix_frames fl ps step w others))
    → let further : Voice → ℕ → Voice × List (ℕ × ℕ) = λ v' i.
      put_first
        (add_frame fl ps v' i frame)
        (mix_frames fl ps step (record v' { pos = ps.advance v'.pos step }) others) in
      after_frame (with_pcm pcm o.0, o.1) (frame ∷ others) further
      ≡ swapped pcm (after_frame o (frame ∷ others) further)
unfolding after_frame
after_frame-swapped fl ps step stride pcm v frame others (v', none) agree reads later = refl
after_frame-swapped fl ps step stride pcm v frame others (v', some i) agree
      (within, same, loop, loops) later =
    let kept : Agrees pcm v'.wave = subst (λ w. Agrees pcm w) (sym same) agree in
    let fits : i + 1 < total_frames v'.wave =
      subst (λ w. i + 1 < total_frames w) (sym same) within in
    let rest =
      later (record v' { pos = ps.advance v'.pos step }) kept (λ on. loops (sym loop ∙ on)) in
    rw (add_frame-with_pcm fl ps pcm v' i frame kept fits) (rw rest refl)

mix_frames-swapped :
    (fl : Floats) (ps : Positions) (step stride : ℕ) (pcm : Bytes) (frames : List (ℕ × ℕ))
    (v : Voice)
    → Steady ps step stride
    → Agrees pcm v.wave
    → (v.loop ≡ true → Loops ps stride v)
    → mix_frames fl ps step (with_pcm pcm v) frames ≡ swapped pcm (mix_frames fl ps step v frames)
unfolding mix_frames
mix_frames-swapped fl ps step stride pcm [] v steady agree loops = refl
mix_frames-swapped fl ps step stride pcm (frame ∷ others) v steady agree loops =
    rw (next_frame-with_pcm ps pcm v) (
      after_frame-swapped fl ps step stride pcm v frame others (next_frame ps v) agree
        (next_frame-Reads ps step stride v steady loops)
        (λ w. mix_frames-swapped fl ps step stride pcm others w steady))

-- A voice reads only samples of its wave: with any other bytes behind them it mixes the same and is
-- left the same. The arithmetic of the positions is taken to be that of doubles below 2 ^ 53 frames: a
-- step moves on by at most `stride` frames, and going back by whole frames is exact. A looping wave has
-- to have more frames than `stride`, with `stride` no more than 2 ^ 53 of them, and its position less
-- than `stride` past the end, as at its start.
pub mix-swapped :
    (fl : Floats) (ps : Positions) (step_of : ℕ → ℕ) (stride : ℕ) (pcm : Bytes)
    (frames : List (ℕ × ℕ)) (v : Voice)
    → Steady ps (step_of v.wave.rate) stride
    → Agrees pcm v.wave
    → (v.loop ≡ true → Loops ps stride v)
    → mix fl ps step_of (with_pcm pcm v) frames ≡ swapped pcm (mix fl ps step_of v frames)
unfolding mix
mix-swapped fl ps step_of stride pcm frames v steady agree loops =
    elim (Bool-cases (not v.playing || v.wave.pcm_size == 0)) [
      | inl silent ↦ rw silent refl
      | inr on ↦
          rw on
            (mix_frames-swapped fl ps (step_of v.wave.rate) stride pcm frames v steady agree loops)
    ]
