-- ===== src/App/Voices.antt =====
-- `Voice` and `ThreadMain` of carbon-pc/src/app/MenuAudio.cpp. Floats and doubles are bit patterns, and
-- the processor's arithmetic on them is a parameter.
pub mod Reads
use open_carbon.Base.{
  ℕ, zero, suc, ◌+◌, ◌-◌, ◌*◌, ◌/◌, ◌%◌, ◌^◌, List, [], ◌∷◌, ◌++◌, Option, none, some, Bool, true,
  false, not, ◌==◌, ◌&&◌, ◌||◌, ltb, leb, if◌then◌else◌,
}
use open_carbon.App.State.{Sounds}
use open_carbon.App.Wave.{Wave}
use open_carbon.Screen.{Floats}

-- The arithmetic of `pos`: a step further, so many whole frames back, the whole part as a `size_t`, and
-- the rest as a float.
pub record Positions : Type 0 where
  pub origin : ℕ
  pub advance : ℕ → ℕ → ℕ
  pub back : ℕ → ℕ → ℕ
  pub whole : ℕ → ℕ
  pub rest : ℕ → ℕ

-- `wave` points to a loaded wave.
pub record Voice : Type 0 where
  pub wave : Wave
  pub loop : Bool
  pub playing : Bool
  pub pos : ℕ
  pub vol_l : ℕ
  pub vol_r : ℕ
  pub vol_c : ℕ

-- `wave->pcm.size() / ch`
abbrev pub total_frames : Wave → ℕ
total_frames w = w.pcm_size / w.channels

module _ (ps : Positions) where
  -- `Start`
  unfoldable pub start_voice : Voice → Voice
  start_voice v = record v { pos = ps.origin; playing = true }

  -- The frame that is read next: a voice at its end stops, or goes back to its beginning.
  unfoldable pub next_frame : Voice → Voice × Option ℕ
  next_frame v =
      let total = total_frames v.wave in
      let begun = record v { pos = ps.back v.pos (total - 1) } in
      if ltb (ps.whole v.pos + 1) total
      then (v, some (ps.whole v.pos))
      else if v.loop
      then (begun, some (ps.whole begun.pos))
      else (record v { playing = false }, none)

abbrev pub Mixed : Type 0
Mixed = Voice × List (ℕ × ℕ)

-- `Mix` returns at a voice's end with what it has mixed.
unfoldable pub after_frame : Voice × Option ℕ → List (ℕ × ℕ) → (Voice → ℕ → Mixed) → Mixed
after_frame (v, none) others further = (v, others)
after_frame (v, some i) others further = further v i

abbrev pub put_first : ℕ × ℕ → Mixed → Mixed
put_first frame (v, others) = (v, frame ∷ others)

module _ (fl : Floats) (ps : Positions) where
  -- `kCenterDownmix`
  abbrev pub center_downmix : ℕ
  center_downmix = fl.ratio 707 1000

  -- The sample between two, over 32768: by a power of two, which is a multiplication. A stored sample is an `int16_t`'s bit pattern.
  unfoldable pub between : ℕ → ℕ → ℕ → ℕ
  between a b t =
      let signed = λ (x : ℕ). fl.from_int (if ltb x (2 ^ 15) then x else x + (2 ^ 32 - 2 ^ 16)) in
      fl.times (fl.plus (fl.times (signed a) (fl.minus (fl.ratio 1 1) t)) (fl.times (signed b) t))
        (fl.ratio 1 32768)

  -- What a voice adds to a frame of the mix.
  unfoldable pub add_frame : Voice → ℕ → ℕ × ℕ → ℕ × ℕ
  unfolding between
  add_frame v i (left, right) =
      let ch = v.wave.channels in
      let t = ps.rest v.pos in
      let l = between (v.wave.pcm (i * ch)) (v.wave.pcm ((i + 1) * ch)) t in
      let r =
        if ltb 1 ch
        then between (v.wave.pcm (i * ch + 1)) (v.wave.pcm ((i + 1) * ch + 1)) t
        else l in
      let center = fl.times (fl.times l v.vol_c) center_downmix in
      (
        fl.plus left (fl.plus (fl.times l v.vol_l) center),
        fl.plus right (fl.plus (fl.times r v.vol_r) center),
      )

  -- The loop of `Mix` over the frames of the buffer, with the step between two frames.
  unfoldable pub mix_frames : ℕ → Voice → List (ℕ × ℕ) → Mixed
  unfolding next_frame add_frame after_frame
  mix_frames step v [] = (v, [])
  mix_frames step v (frame ∷ others) = after_frame (next_frame ps v) (frame ∷ others) (λ v' i.
      put_first (add_frame v' i frame)
        (mix_frames step (record v' { pos = ps.advance v'.pos step }) others))

  -- `Mix`
  unfoldable pub mix : (ℕ → ℕ) → Voice → List (ℕ × ℕ) → Mixed
  unfolding mix_frames
  mix step_of v out =
      if not v.playing || v.wave.pcm_size == 0
      then (v, out)
      else mix_frames (step_of v.wave.rate) v out

  -- The five voices, and the globals that the other threads set.
  pub record MenuPlayer : Type 0 where
    pub music : Voice
    pub back : Voice
    pub select : Voice
    pub move : Voice
    pub toggle : Voice
    pub sounds : Sounds

  -- `if (trigger && !voice.playing)`, with the trigger that is left.
  unfoldable pub triggered : ℕ → ℕ → Voice → Voice × ℕ
  unfolding start_voice
  triggered volume trigger v =
      if not (trigger == 0) && not v.playing
      then (start_voice ps (record v { vol_c = volume }), 0)
      else (v, trigger)

  unfoldable pub start_sounds : MenuPlayer → MenuPlayer
  unfolding triggered
  start_sounds p =
      let one = fl.ratio 1 1 in
      let (toggle, toggle_left) = triggered one p.sounds.toggle p.toggle in
      let (move, move_left) = triggered (fl.ratio 6 10) p.sounds.move p.move in
      let (select, select_left) = triggered one p.sounds.select p.select in
      let (back, back_left) = triggered one p.sounds.back p.back in
      record p {
        toggle = toggle;
        move = move;
        select = select;
        back = back;
        sounds = record (p.sounds) {
          toggle = toggle_left;
          move = move_left;
          select = select_left;
          back = back_left;
        };
      }

  abbrev pub at_volume : ℕ → Voice → Voice
  at_volume volume v = record v { vol_l = volume; vol_r = volume }

  -- The fades of the music; the target of a fade out is 0.
  unfoldable pub music_out : MenuPlayer → MenuPlayer
  music_out p =
      let volume = fl.minus p.music.vol_l (fl.ratio 1 100) in
      if p.sounds.music_fade_out == 0
      then p
      else if fl.less (fl.ratio 0 1) volume
      then record p { music = at_volume volume p.music }
      else record p { sounds = record (p.sounds) { music_fade_out = 0 } }

  unfoldable pub music_in : MenuPlayer → MenuPlayer
  music_in p =
      let volume = fl.plus p.music.vol_l (fl.ratio 1 100) in
      if p.sounds.music_fade_in == 0
      then p
      else if fl.at_most volume (fl.ratio p.sounds.music_fade_in_target 1000)
      then record p { music = at_volume volume p.music }
      else record p { sounds = record (p.sounds) { music_fade_in = 0 } }

  -- A sample of the mix as an `int16_t`'s bit pattern.
  unfoldable pub to_sample : ℕ → ℕ
  to_sample m =
      let s = fl.times m (fl.ratio 32767 1) in
      let low = fl.negated (fl.ratio 32768 1) in
      fl.to_int (
        if fl.less (fl.ratio 32767 1) s then fl.ratio 32767 1 else if fl.less s low then low else s)
      % 2 ^ 16

  abbrev pub silence : ℕ → List (ℕ × ℕ)
  silence zero = []
  silence (suc n) = (fl.ratio 0 1, fl.ratio 0 1) ∷ silence n

  abbrev pub interleaved : List (ℕ × ℕ) → List ℕ
  interleaved [] = []
  interleaved ((left, right) ∷ others) = to_sample left ∷ to_sample right ∷ interleaved others

  -- One round of the loop, with the samples that are written to the stream.
  unfoldable pub menu_turn : (ℕ → ℕ) → MenuPlayer → MenuPlayer × List ℕ
  unfolding start_sounds music_out music_in mix to_sample
  menu_turn step_of p =
      let q = music_in (music_out (start_sounds p)) in
      let (music, m1) = mix step_of q.music (silence 160) in
      let (back, m2) = mix step_of q.back m1 in
      let (select, m3) = mix step_of q.select m2 in
      let (move, m4) = mix step_of q.move m3 in
      let (toggle, m5) = mix step_of q.toggle m4 in
      (
        record q { music = music; back = back; select = select; move = move; toggle = toggle },
        interleaved m5,
      )
