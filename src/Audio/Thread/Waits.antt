-- ===== src/Audio/Thread/Waits.antt =====
-- The audio thread of carbon-pc/src/gb/Audio.cpp never waits for an event that does not come.
use mathlib.Core.Path.{subst}
use mathlib.Core.List.{nil≢cons}
use open_carbon.Base.{
  ℕ, suc, List, [], ◌∷◌, ◌++◌, true, false, Bytes, ◌≡◌, refl, arith, ap, ◌⊎◌, inl, inr, Bool-cases,
  length,
}
use open_carbon.Audio.Out.{Out, can_wake, get_released, set_volume, stop_out, clear_event}
use open_carbon.Audio.Thread.{
  Volume, Place, first_append, second_append, muting, loop_head, raising, lowering, waiting,
  releasing, filling, appending, finished, Player, thread_turn, Step, thread, device, samples,
  clear, end_thread, Played, start, step, append_block, fade_up, fade_down, fill_buffer,
  release_place, start_player,
}
use open_carbon.Audio.Thread.Line.{line, Lined, Turns, Played-Lined, numbers, in_hand, device_line}
use open_carbon.Audio.Thread.Awake.{
  announced, append_out-announced, append_out-first, append_out-live, awake, device_turn-awake,
  device_turns, device_turns-wake, is_empty, is_live,
}

module _ (v : Volume) (a b : ℕ) where
  pub awake-place :
      (pl : Place) (p : Player) → p.place ≡ pl → awake pl p.out ≡ true → awake p.place p.out ≡ true
  awake-place pl p e h = rw (e) h

  pub get_released-awake :
      (released : List ℕ) (o : Out)
      → o.released ≡ released
      → is_live o ≡ true
      → awake (release_place (get_released released o).0) (get_released released o).1 ≡ true
  unfolding get_released awake
  get_released-awake [] o e h = ground (arith, ap is_empty e)
  get_released-awake (x ∷ rest) o e h = h

  pub thread_turn-awake :
      (pl : Place) (p : Player)
      → p.place ≡ pl
      → awake pl p.out ≡ true
      → awake (thread_turn v a b pl p).place (thread_turn v a b pl p).out ≡ true
  unfolding thread_turn awake append_block set_volume clear_event stop_out fade_up fade_down
      fill_buffer
  thread_turn-awake first_append p e h = append_out-first v.mix a (p.blocks a) p.out h
  thread_turn-awake second_append p e h = append_out-announced v.mix b (p.blocks b) p.out h
  thread_turn-awake muting p e h = h
  thread_turn-awake loop_head p e h = elim (Bool-cases p.thread_running) [
    | inl t ↦ simp (t) h
    | inr t ↦ simp (t) refl
  ]
  thread_turn-awake raising p e h = elim (Bool-cases p.fade_in) [
    | inl t ↦ simp (t) h
    | inr t ↦ simp (t) h
  ]
  thread_turn-awake lowering p e h = elim (Bool-cases p.fade_out) [
    | inl t ↦ simp (t) h
    | inr t ↦ simp (t) h
  ]
  thread_turn-awake waiting p e h = elim (Bool-cases (can_wake p.out)) [
    | inl t ↦ rw (t) (ground arith)
    | inr t ↦ rw (t) (awake-place waiting p e h)
  ]
  thread_turn-awake releasing p e h = get_released-awake p.out.released p.out refl h
  thread_turn-awake (filling buffer) p e h = h
  thread_turn-awake (appending buffer) p e h =
      append_out-live v.mix buffer (p.blocks buffer) p.out h
  thread_turn-awake finished p e h = awake-place finished p e h

  pub Step-awake :
      {p q : Player} → Step v a b p q → awake p.place p.out ≡ true → awake q.place q.out ≡ true
  Step-awake (thread p) h = thread_turn-awake p.place p refl h
  Step-awake (device p due) h = device_turn-awake v.mix p.place due p.out.mixed p.out h
  Step-awake (samples p new) h = h
  Step-awake (clear p) h = h
  Step-awake (end_thread p) h = h

  pub Played-awake : {p : Player} → Played v a b p → awake p.place p.out ≡ true
  unfolding awake start_player
  Played-awake (start blocks ring) = refl
  Played-awake (step before s) = Step-awake s (Played-awake before)

  pub queued-Turns :
      (released : List ℕ) (queued : List (ℕ × Bytes))
      → is_empty released ≡ true
      → Turns a b (released ++ numbers queued)
      → is_empty queued ≡ false
  queued-Turns (x ∷ rest) queued e t = ground arith
  queued-Turns [] (x ∷ rest) e t = refl
  queued-Turns [] [] e (inl t) = absurd (nil≢cons t)
  queued-Turns [] [] e (inr t) = absurd (nil≢cons t)

  -- While the thread waits with no event, both buffers are queued.
  pub waiting-queued :
      (o : Out)
      → Turns a b (device_line o)
      → announced o ≡ true
      → can_wake o ≡ false
      → is_empty o.queued ≡ false
  unfolding can_wake
  waiting-queued o t h w = queued-Turns o.released o.queued (ground arith) t

  -- When the audio thread waits, its event is there, or it is there once the device has written what is mixed and one more period
  -- was due. This holds in every order of the threads' steps.
  pub Played-wakes :
      {p : Player}
      → Played v a b p
      → p.place ≡ waiting
      → (can_wake p.out ≡ true)
        ⊎ (can_wake (device_turns v.mix (suc (length p.out.mixed)) p.out) ≡ true)
  unfolding Lined awake line
  Played-wakes {p} h e =
      let known : announced p.out ≡ true = subst (λ pl. awake pl p.out ≡ true) e (Played-awake h) in
      let turns : Turns a b (device_line p.out) =
        subst (λ pl. Lined a b pl (in_hand pl ++ device_line p.out)) e (Played-Lined v a b h) in
      elim (Bool-cases (can_wake p.out)) [
        | inl w ↦ inl w
        | inr w ↦ inr (
            device_turns-wake v.mix p.out.mixed p.out refl (ground arith)
              (waiting-queued p.out turns known w))
      ]
