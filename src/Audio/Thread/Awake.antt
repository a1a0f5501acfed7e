-- ===== src/Audio/Thread/Awake.antt =====
-- What the device of carbon-pc/src/platform/AudioOut.cpp keeps of the audio thread's state.
use mathlib.Core.Path.{subst}
use open_carbon.Base.{
  ℕ, zero, suc, List, [], ◌∷◌, ◌++◌, Bool, true, false, not, ◌&&◌, ◌||◌, Bytes, ◌≡◌, refl, arith,
  ap, sym, length,
}
use open_carbon.Audio.Out.{Out, can_wake, append_out, device_turn, take, take_from, write_period}
use open_carbon.Audio.Thread.{
  Place, first_append, second_append, muting, loop_head, raising, lowering, waiting, releasing,
  filling, appending, finished,
}

abbrev pub is_empty {ℓ} : {A : Type ℓ} → List A → Bool
is_empty [] = true
is_empty (x ∷ xs) = false

-- The stream is open and not stopped.
abbrev pub is_live : Out → Bool
is_live o = o.stream_open && not o.stop

-- A released buffer is announced.
abbrev pub announced : Out → Bool
announced o = is_live o && (o.event || is_empty o.released)

unfoldable pub awake : Place → Out → Bool
awake first_append o =
    o.started && not o.stream_open && not o.stop && is_empty o.released && is_empty o.queued
awake second_append o = announced o
awake muting o = announced o
awake loop_head o = announced o
awake raising o = announced o
awake lowering o = announced o
awake waiting o = announced o
awake releasing o = is_live o
awake (filling buffer) o = is_live o
awake (appending buffer) o = is_live o
awake finished o = true

module _ (mix : ℕ → ℕ → ℕ) where
  pub take_from-announced :
      (q : List (ℕ × Bytes)) (o : Out) → announced o ≡ true → announced (take_from mix q o) ≡ true
  unfolding take_from
  take_from-announced [] o h = h
  take_from-announced (x ∷ rest) o h = ground arith

  pub take_from-live : (q : List (ℕ × Bytes)) (o : Out) → is_live (take_from mix q o) ≡ is_live o
  unfolding take_from
  take_from-live [] o = refl
  take_from-live (x ∷ rest) o = refl

  pub append_out-announced :
      (buffer : ℕ) (content : Bytes) (o : Out)
      → announced o ≡ true
      → announced (append_out mix buffer content o) ≡ true
  unfolding append_out take
  append_out-announced buffer content o h = ground arith

  pub append_out-live :
      (buffer : ℕ) (content : Bytes) (o : Out)
      → is_live o ≡ true
      → is_live (append_out mix buffer content o) ≡ true
  unfolding append_out take
  append_out-live buffer content o h = ground arith

  pub take_from-live_last :
      (q : List (ℕ × Bytes)) (x : ℕ × Bytes) (o : Out)
      → is_live o ≡ true
      → announced (take_from mix (q ++ (x ∷ [])) o) ≡ true
  unfolding take_from
  take_from-live_last [] x o h = ground arith
  take_from-live_last (y ∷ rest) x o h = ground arith

  pub append_out-first :
      (buffer : ℕ) (content : Bytes) (o : Out)
      → awake first_append o ≡ true
      → announced (append_out mix buffer content o) ≡ true
  unfolding append_out take awake
  append_out-first buffer content o h =
      let opens : (o.started && not o.stream_open) ≡ true = ground arith in
      let running : o.stop ≡ false = ground arith in
      simp (opens) (
        take_from-live_last o.queued (buffer, content)
          (record o { queued = o.queued ++ ((buffer, content) ∷ []); stream_open = true })
          (simp (running) refl))

  pub device_turn-live :
      (due : Bool) (periods : List Bytes) (o : Out)
      → is_live o ≡ true
      → is_live (device_turn mix due periods o) ≡ true
  unfolding device_turn write_period take
  device_turn-live due (x ∷ rest) o h = h
  device_turn-live due [] o h = ground (arith, take_from-live o.queued o)

  pub device_turn-announced :
      (due : Bool) (periods : List Bytes) (o : Out)
      → announced o ≡ true
      → announced (device_turn mix due periods o) ≡ true
  unfolding device_turn write_period take
  device_turn-announced due (x ∷ rest) o h = h
  device_turn-announced due [] o h = ground (arith, take_from-announced o.queued o)

  pub device_turn-first :
      (due : Bool) (periods : List Bytes) (o : Out)
      → awake first_append o ≡ true
      → awake first_append (device_turn mix due periods o) ≡ true
  unfolding device_turn write_period awake
  device_turn-first due (x ∷ rest) o h = h
  device_turn-first due [] o h = ground arith

  pub device_turn-awake :
      (pl : Place) (due : Bool) (periods : List Bytes) (o : Out)
      → awake pl o ≡ true
      → awake pl (device_turn mix due periods o) ≡ true
  unfolding awake
  device_turn-awake first_append due periods o h = device_turn-first due periods o h
  device_turn-awake second_append due periods o h = device_turn-announced due periods o h
  device_turn-awake muting due periods o h = device_turn-announced due periods o h
  device_turn-awake loop_head due periods o h = device_turn-announced due periods o h
  device_turn-awake raising due periods o h = device_turn-announced due periods o h
  device_turn-awake lowering due periods o h = device_turn-announced due periods o h
  device_turn-awake waiting due periods o h = device_turn-announced due periods o h
  device_turn-awake releasing due periods o h = device_turn-live due periods o h
  device_turn-awake (filling buffer) due periods o h = device_turn-live due periods o h
  device_turn-awake (appending buffer) due periods o h = device_turn-live due periods o h
  device_turn-awake finished due periods o h = refl

  -- Turns of the device in which a period is always due.
  unfoldable pub device_turns : ℕ → Out → Out
  device_turns zero o = o
  device_turns (suc n) o = device_turns n (device_turn mix true o.mixed o)

  pub take_from-wakes :
      (q : List (ℕ × Bytes)) (o : Out) → is_empty q ≡ false → can_wake (take_from mix q o) ≡ true
  unfolding take_from can_wake
  take_from-wakes [] o e = ground arith
  take_from-wakes (x ∷ rest) o e = refl

  pub device_turns-wake :
      (periods : List Bytes) (o : Out)
      → o.mixed ≡ periods
      → is_live o ≡ true
      → is_empty o.queued ≡ false
      → can_wake (device_turns (suc (length periods)) o) ≡ true
  unfolding device_turns device_turn write_period take
  device_turns-wake [] o e l q =
      let on : o.stop ≡ false = ground arith in
      let due : (o.stream_open && true) ≡ true = ground arith in
      simp (e, on, due) (take_from-wakes o.queued o q)
  device_turns-wake (x ∷ rest) o e l q =
      let written : device_turn mix true (x ∷ rest) o ≡ device_turn mix true o.mixed o =
        ap (λ periods. device_turn mix true periods o) (sym e) in
      subst (λ next. can_wake (device_turns (suc (length rest)) next) ≡ true) written
        (device_turns-wake rest (record o { mixed = rest; written = o.written ++ (x ∷ []) }) refl l
          q)
