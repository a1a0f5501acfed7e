-- ===== src/System/Ring/Fifo.antt =====
-- The sample ring of carbon-pc/src/gb/Audio.cpp as a queue of samples.
use open_carbon.Base.{
  ℕ, zero, suc, ◌+◌, ◌-◌, ◌*◌, ◌%◌, ◌≤◌, ◌<◌, ◌≡◌, refl, arith, List, [], ◌∷◌, Bytes, min,
  Bool-cases, inl, inr, ltb→lt, length, get_or, ltb, if◌then◌else◌,
}
use open_carbon.System.Ring.{Ring, append, drain, ring_frames}

-- The queue `xs` with `ys` behind it, and what is left of `xs` behind its first `n` entries.
abbrev pub push_all : List ℕ → List ℕ → List ℕ
push_all [] ys = ys
push_all (x ∷ xs) ys = x ∷ push_all xs ys

abbrev pub skip : ℕ → List ℕ → List ℕ
skip zero xs = xs
skip (suc n) [] = []
skip (suc n) (x ∷ xs) = skip n xs

length-push_all : (xs ys : List ℕ) → length (push_all xs ys) ≡ length xs + length ys
length-push_all [] ys = omega arith
length-push_all (x ∷ xs) ys = omega (arith, length-push_all xs ys)

get_or-push_all :
    (xs ys : List ℕ) (i : ℕ)
    → get_or (push_all xs ys) i 0
      ≡ (if ltb i (length xs) then get_or xs i 0 else get_or ys (i - length xs) 0)
get_or-push_all [] ys i = ground arith
get_or-push_all (x ∷ xs) ys zero = ground arith
get_or-push_all (x ∷ xs) ys (suc i) = ground (arith, get_or-push_all xs ys i)

length-skip : (n : ℕ) (xs : List ℕ) → length (skip n xs) ≡ length xs - n
length-skip zero xs = omega arith
length-skip (suc n) [] = omega arith
length-skip (suc n) (x ∷ xs) = omega (arith, length-skip n xs)

get_or-skip : (n : ℕ) (xs : List ℕ) (i : ℕ) → get_or (skip n xs) i 0 ≡ get_or xs (i + n) 0
get_or-skip zero xs i = ground arith
get_or-skip (suc n) [] i = refl
get_or-skip (suc n) (x ∷ xs) i = ground (arith, get_or-skip n xs i)

-- The ring holds exactly the samples of a queue, in its order, two to a frame.
pub record Holds (r : Ring) (queue : List ℕ) : Type 0 where
  pub filled : length queue ≡ r.fill * 2
  pub stored : (i : ℕ) → i < length queue → r.samples i ≡ get_or queue i 0
  pub bounded : r.fill ≤ ring_frames

-- An even number of samples that fit is put behind the queue; a batch that does not fit leaves it.
pub append-Holds :
    (r : Ring) (queue new : List ℕ)
    → Holds r queue
    → length new % 2 ≡ 0
    → Holds
        (append r new)
        (if ltb (r.fill + length new) ring_frames then push_all queue new else queue)
unfolding append
append-Holds r queue new h even =
    let f = h.filled in
    let st = h.stored in
    let b = h.bounded in
    elim (Bool-cases (ltb (r.fill + length new) ring_frames)) [
      | inl fits ↦ rw fits (record {
        filled = omega (arith, f, even, length-push_all queue new);
        stored = λ i below.
            ground (arith, f, st i, length-push_all queue new, get_or-push_all queue new i);
        bounded = omega (arith, b, ltb→lt _ _ fits);
      })
      | inr over ↦ rw over h
    ]

-- A drain takes the oldest frames off the queue, at most a buffer of them, into the buffer's front,
-- and keeps the others in order.
pub drain-Holds :
    (frames : ℕ) (r : Ring) (queue : List ℕ) (buffer : Bytes)
    → Holds r queue
    → let (r', out) = drain frames r buffer in
      let n = min r.fill frames in
      Holds r' (skip (n * 2) queue)
      × ((i : ℕ) → i < n * 2 → out i ≡ get_or queue i 0)
      × ((i : ℕ) → n * 2 ≤ i → out i ≡ buffer i)
unfolding drain
drain-Holds frames r queue buffer h =
    let f = h.filled in
    let st = h.stored in
    let b = h.bounded in
    let n = min r.fill frames in
    (
      record {
        filled = omega (arith, f, length-skip (n * 2) queue);
        stored = λ i below.
            ground
              (arith, f, st (i + n * 2), length-skip (n * 2) queue, get_or-skip (n * 2) queue i);
        bounded = omega (arith, b);
      },
      λ i below. ground (arith, f, st i),
      λ i above. ground arith,
    )
