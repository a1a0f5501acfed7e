-- ===== src/System/SaveFile/Paths.antt =====
-- The paths that `SlotDir` and `StatePath` of carbon-pc/src/gb/System.cpp build tell the slots apart.
use open_carbon.Base.{
  ℕ, zero, suc, ◌+◌, ◌-◌, ◌*◌, ◌/◌, ◌%◌, ◌<◌, List, [], ◌∷◌, ◌++◌, true, false, ◌≡◌, refl, sym, ap,
  ◌∙◌, arith, same, digits_before, decimal, if◌then◌else◌, ==_iff, ◌==◌,
}
use mathlib.Core.List.{append_assoc}
use open_carbon.System.SaveFile.{slot_dir, state_path}

-- The number that a text starts with, and what follows the slash after it.
unfoldable pub number : ℕ → List ℕ → ℕ × List ℕ
number so_far [] = (so_far, [])
number so_far (c ∷ rest) =
    let further = number (so_far * 10 + (c - b'0')) rest in
    if c == b'/' then (so_far, rest) else further

pub number_digit :
    (n : ℕ) (after : List ℕ) → number (n / 10) ((b'0' + n % 10) ∷ after) ≡ number n after
unfolding number
number_digit n after =
    let value : n / 10 * 10 + (b'0' + n % 10 - b'0') ≡ n = omega arith in
    let digit : ((b'0' + n % 10) == b'/') ≡ false = ground arith in rw (digit, value) refl

pub number-digits_before :
    (fuel n : ℕ) (after : List ℕ)
    → n < fuel
    → number 0 (digits_before fuel n after) ≡ number n after
unfolding digits_before
number-digits_before zero n after l = absurd (omega arith)
number-digits_before (suc fuel) n after l =
    let digit = number_digit n after in
    let further = number-digits_before fuel (n / 10) ((b'0' + n % 10) ∷ after) in ground arith

pub digits_before-append :
    (fuel n : ℕ) (after more : List ℕ)
    → digits_before fuel n after ++ more ≡ digits_before fuel n (after ++ more)
unfolding digits_before
digits_before-append zero n after more = refl
digits_before-append (suc fuel) n after more =
    ground (arith, digits_before-append fuel (n / 10) ((b'0' + n % 10) ∷ after) more)

pub number-decimal : (n : ℕ) (rest : List ℕ) → number 0 (decimal n ++ (b'/' ∷ rest)) ≡ (n, rest)
unfolding decimal number
number-decimal n rest =
    ap (number 0) (digits_before-append (n + 1) n [] (b'/' ∷ rest))
    ∙ number-digits_before (n + 1) n (b'/' ∷ rest) (omega arith)

pub same_sound : (xs ys : List ℕ) → same xs ys ≡ true → xs ≡ ys
same_sound [] [] e = refl
same_sound [] (y ∷ ys) e = ground arith
same_sound (x ∷ xs) [] e = ground arith
same_sound (x ∷ xs) (y ∷ ys) e = ground (arith, same_sound xs ys, ==_iff x y)

abbrev pub drop : ℕ → List ℕ → List ℕ
drop zero xs = xs
drop (suc n) [] = []
drop (suc n) (x ∷ xs) = drop n xs

-- The game and the slot that a path names.
unfoldable pub numbers_of : List ℕ → ℕ × ℕ
unfolding number
numbers_of path =
    let (game, rest) = number 0 (drop 6 path) in let (slot, name) = number 0 rest in (game, slot)

pub numbers_of-state_path :
    (title : List ℕ) (slot game : ℕ) → numbers_of (state_path title slot game) ≡ (game, slot)
unfolding numbers_of state_path slot_dir
numbers_of-state_path title slot game =
    let name : List ℕ = title ++ (b'.' ∷ b's' ∷ b't' ∷ b't' ∷ []) in
    rw
      (
        append_assoc (decimal game) (b'/' ∷ (decimal slot ++ (b'/' ∷ []))) name,
        append_assoc (decimal slot) (b'/' ∷ []) name,
        number-decimal game (decimal slot ++ (b'/' ∷ name)),
        number-decimal slot name,
      )
      refl

-- Two slots whose files are one file are the same slot of the same game.
pub state_path-injective :
    (title title' : List ℕ) (slot slot' game game' : ℕ)
    → state_path title slot game ≡ state_path title' slot' game'
    → (game ≡ game') × (slot ≡ slot')
state_path-injective title title' slot slot' game game' e =
    let both : (game, slot) ≡ (game', slot') =
      sym (numbers_of-state_path title slot game)
      ∙ ap numbers_of e
      ∙ numbers_of-state_path title' slot' game' in
    (ap (λ p. p.0) both, ap (λ p. p.1) both)
