-- ===== src/Audio/Thread/Line.antt =====
-- Where the two buffers of carbon-pc/src/gb/Audio.cpp stand, in every order of the threads' steps.
use open_carbon.Base.{
  ℕ, List, [], ◌∷◌, ◌++◌, Bool, true, not, ◌&&◌, Bytes, ◌≡◌, refl, arith, ap, sym, ◌∙◌, ◌⊎◌, inl,
  inr, Bool-cases,
}
use mathlib.Core.Path.{subst}
use mathlib.Core.List.{append_assoc, head-eq_of_cons-eq, tail-eq_of_cons-eq}
use open_carbon.Audio.Out.{
  Out, can_wake, append_out, device_turn, get_released, take, take_from, write_period, set_volume,
  stop_out, clear_event,
}
use open_carbon.Audio.Thread.{
  Volume, Place, first_append, second_append, muting, loop_head, raising, lowering, waiting,
  releasing, filling, appending, finished, Player, thread_turn, Step, thread, device, samples,
  clear, end_thread, Played, start, step, append_block, fade_up, fade_down, fill_buffer,
  release_place, start_player,
}

abbrev pub numbers : List (ℕ × Bytes) → List ℕ
numbers [] = []
numbers ((buffer, content) ∷ rest) = buffer ∷ numbers rest

-- The buffers of the device, the one that comes back next first.
abbrev pub device_line : Out → List ℕ
device_line o = o.released ++ numbers o.queued

abbrev pub in_hand : Place → List ℕ
in_hand first_append = []
in_hand second_append = []
in_hand muting = []
in_hand loop_head = []
in_hand raising = []
in_hand lowering = []
in_hand waiting = []
in_hand releasing = []
in_hand (filling buffer) = buffer ∷ []
in_hand (appending buffer) = buffer ∷ []
in_hand finished = []

-- All buffers, the one in the thread's hands first.
unfoldable pub line : Player → List ℕ
line p = in_hand p.place ++ device_line p.out

pub numbers-append :
    (q : List (ℕ × Bytes)) (buffer : ℕ) (content : Bytes)
    → numbers (q ++ ((buffer, content) ∷ [])) ≡ numbers q ++ (buffer ∷ [])
numbers-append [] buffer content = refl
numbers-append ((x, c) ∷ rest) buffer content = ap (λ r. x ∷ r) (numbers-append rest buffer content)

module _ (mix : ℕ → ℕ → ℕ) where
  pub take_from-line :
      (q : List (ℕ × Bytes)) (o : Out)
      → o.queued ≡ q
      → device_line (take_from mix q o) ≡ o.released ++ numbers q
  unfolding take_from
  take_from-line [] o e = rw (e) refl
  take_from-line ((x, c) ∷ rest) o e = append_assoc o.released (x ∷ []) (numbers rest)

  -- A period keeps the line.
  pub take-line : (o : Out) → device_line (take mix o) ≡ device_line o
  unfolding take
  take-line o = take_from-line o.queued o refl

  pub append_out-line :
      (buffer : ℕ) (content : Bytes) (o : Out)
      → device_line (append_out mix buffer content o) ≡ device_line o ++ (buffer ∷ [])
  unfolding append_out
  append_out-line buffer content o =
      let longer : o.released ++ numbers (o.queued ++ ((buffer, content) ∷ []))
          ≡ device_line o ++ (buffer ∷ []) =
        rw (numbers-append o.queued buffer content)
          (sym (append_assoc o.released (numbers o.queued) (buffer ∷ []))) in
      elim (Bool-cases (o.started && not o.stream_open)) [
        | inl e ↦ simp (e) (
            take-line
              (record o { queued = o.queued ++ ((buffer, content) ∷ []); stream_open = true })
            ∙ longer)
        | inr e ↦ simp (e) longer
      ]

  pub device_turn-line :
      (due : Bool) (periods : List Bytes) (o : Out)
      → device_line (device_turn mix due periods o) ≡ device_line o
  unfolding device_turn write_period
  device_turn-line due (x ∷ rest) o = refl
  device_turn-line due [] o = ground (arith, take-line o)

pub get_released-line :
    (released : List ℕ) (o : Out)
    → o.released ≡ released
    → in_hand (release_place (get_released released o).0) ++ device_line (get_released released o).1
      ≡ device_line o
unfolding get_released
get_released-line [] o e = refl
get_released-line (x ∷ rest) o e = rw (e) refl

-- The first or the second of two, or both in turn.
abbrev pub Turns : ℕ → ℕ → List ℕ → Type 0
Turns a b xs = (xs ≡ a ∷ b ∷ []) ⊎ (xs ≡ b ∷ a ∷ [])

-- How the line looks at each place.
unfoldable pub Lined : ℕ → ℕ → Place → List ℕ → Type 0
Lined a b first_append xs = xs ≡ []
Lined a b second_append xs = xs ≡ a ∷ []
Lined a b muting xs = Turns a b xs
Lined a b loop_head xs = Turns a b xs
Lined a b raising xs = Turns a b xs
Lined a b lowering xs = Turns a b xs
Lined a b waiting xs = Turns a b xs
Lined a b releasing xs = Turns a b xs
Lined a b (filling buffer) xs = Turns a b xs
Lined a b (appending buffer) xs = Turns a b xs
Lined a b finished xs = Turns a b xs

pub swap-rotate :
    (a b buffer : ℕ) (xs : List ℕ) → buffer ∷ xs ≡ a ∷ b ∷ [] → xs ++ (buffer ∷ []) ≡ b ∷ a ∷ []
swap-rotate a b buffer xs e = rw (tail-eq_of_cons-eq e, head-eq_of_cons-eq e) refl

pub Turns-rotate :
    (a b buffer : ℕ) (xs : List ℕ) → Turns a b (buffer ∷ xs) → Turns a b (xs ++ (buffer ∷ []))
Turns-rotate a b buffer xs (inl e) = inr (swap-rotate a b buffer xs e)
Turns-rotate a b buffer xs (inr e) = inl (swap-rotate b a buffer xs e)

pub get_released-Lined :
    (a b : ℕ) (released : List ℕ) (o : Out)
    → o.released ≡ released
    → Turns a b (device_line o)
    → Lined a b (release_place (get_released released o).0) (
        in_hand (release_place (get_released released o).0)
        ++ device_line (get_released released o).1)
unfolding get_released Lined
get_released-Lined a b [] o e t = t
get_released-Lined a b (x ∷ rest) o e t = subst (λ r. Turns a b (r ++ numbers o.queued)) e t

module _ (v : Volume) (a b : ℕ) where
  pub Lined-place :
      (pl : Place) (p : Player)
      → p.place ≡ pl
      → Lined a b pl (in_hand pl ++ device_line p.out)
      → Lined a b p.place (line p)
  unfolding line
  Lined-place pl p e l = rw (e) l

  pub thread_turn-Lined :
      (pl : Place) (p : Player)
      → p.place ≡ pl
      → Lined a b pl (in_hand pl ++ device_line p.out)
      → Lined a b (thread_turn v a b pl p).place (line (thread_turn v a b pl p))
  unfolding thread_turn Lined line append_block set_volume clear_event stop_out fade_up fade_down
      fill_buffer
  thread_turn-Lined first_append p e l = rw (append_out-line v.mix a (p.blocks a) p.out, l) refl
  thread_turn-Lined second_append p e l =
      rw (append_out-line v.mix b (p.blocks b) p.out, l) (inl refl)
  thread_turn-Lined muting p e l = l
  thread_turn-Lined loop_head p e l = elim (Bool-cases p.thread_running) [
    | inl t ↦ simp (t) l
    | inr t ↦ simp (t) l
  ]
  thread_turn-Lined raising p e l = elim (Bool-cases p.fade_in) [
    | inl t ↦ simp (t) l
    | inr t ↦ simp (t) l
  ]
  thread_turn-Lined lowering p e l = elim (Bool-cases p.fade_out) [
    | inl t ↦ simp (t) l
    | inr t ↦ simp (t) l
  ]
  thread_turn-Lined waiting p e l = elim (Bool-cases (can_wake p.out)) [
    | inl t ↦ rw (t) l
    | inr t ↦ rw (t) (Lined-place waiting p e l)
  ]
  thread_turn-Lined releasing p e l = get_released-Lined a b p.out.released p.out refl l
  thread_turn-Lined (filling buffer) p e l = l
  thread_turn-Lined (appending buffer) p e l =
      rw (append_out-line v.mix buffer (p.blocks buffer) p.out)
        (Turns-rotate a b buffer (device_line p.out) l)
  thread_turn-Lined finished p e l = Lined-place finished p e l

  pub Step-Lined :
      {p q : Player} → Step v a b p q → Lined a b p.place (line p) → Lined a b q.place (line q)
  unfolding line
  Step-Lined (thread p) l = thread_turn-Lined p.place p refl l
  Step-Lined (device p due) l = rw (device_turn-line v.mix due p.out.mixed p.out) l
  Step-Lined (samples p new) l = l
  Step-Lined (clear p) l = l
  Step-Lined (end_thread p) l = l

  -- In every order of the threads' steps, once both buffers are appended, each of the two is in the thread's hands, released or
  -- queued, and in one place only.
  pub Played-Lined : {p : Player} → Played v a b p → Lined a b p.place (line p)
  unfolding line Lined start_player
  Played-Lined (start blocks ring) = refl
  Played-Lined (step before s) = Step-Lined s (Played-Lined before)
