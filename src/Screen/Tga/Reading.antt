-- ===== src/Screen/Tga/Reading.antt =====
-- What is read of a file's bytes, and where red and blue go, in `LoadTga` of
-- carbon-pc/src/gfx/TextRenderer.cpp.
use open_carbon.Base.{
  ℕ, zero, suc, ◌+◌, ◌*◌, ◌≤◌, ◌<◌, ◌≡◌, get_or, refl, ap, ◌∙◌, arith, List, [], ◌∷◌, Option, none,
  some, length,
}
use open_carbon.Screen.Tga.{swap3, swap4, read_exactly, skipped}

-- Where the bytes of a pixel are after the exchange.
pub swap3-pixel :
    (xs : List ℕ) (p : ℕ)
    → 3 * p + 2 < length xs
    → (get_or (swap3 xs) (3 * p) 0 ≡ get_or xs (3 * p + 2) 0)
      × (get_or (swap3 xs) (3 * p + 1) 0 ≡ get_or xs (3 * p + 1) 0)
      × (get_or (swap3 xs) (3 * p + 2) 0 ≡ get_or xs (3 * p) 0)
swap3-pixel [] p h = absurd (omega arith)
swap3-pixel (b ∷ []) p h = absurd (omega arith)
swap3-pixel (b ∷ g ∷ []) p h = absurd (omega arith)
swap3-pixel (b ∷ g ∷ r ∷ rest) zero h = (refl, refl, refl)
swap3-pixel (b ∷ g ∷ r ∷ rest) (suc p) h =
    let e2 : 3 * suc p + 2 ≡ suc (suc (suc (3 * p + 2))) = omega arith in
    let e1 : 3 * suc p + 1 ≡ suc (suc (suc (3 * p + 1))) = omega arith in
    let e0 : 3 * suc p ≡ suc (suc (suc (3 * p))) = omega arith in
    rw (e2, e1, e0) (swap3-pixel rest p (omega arith))

pub swap4-pixel :
    (xs : List ℕ) (p : ℕ)
    → 4 * p + 3 < length xs
    → (get_or (swap4 xs) (4 * p) 0 ≡ get_or xs (4 * p + 2) 0)
      × (get_or (swap4 xs) (4 * p + 1) 0 ≡ get_or xs (4 * p + 1) 0)
      × (get_or (swap4 xs) (4 * p + 2) 0 ≡ get_or xs (4 * p) 0)
      × (get_or (swap4 xs) (4 * p + 3) 0 ≡ get_or xs (4 * p + 3) 0)
swap4-pixel [] p h = absurd (omega arith)
swap4-pixel (b ∷ []) p h = absurd (omega arith)
swap4-pixel (b ∷ g ∷ []) p h = absurd (omega arith)
swap4-pixel (b ∷ g ∷ r ∷ []) p h = absurd (omega arith)
swap4-pixel (b ∷ g ∷ r ∷ a ∷ rest) zero h = (refl, refl, refl, refl)
swap4-pixel (b ∷ g ∷ r ∷ a ∷ rest) (suc p) h =
    let e3 : 4 * suc p + 3 ≡ suc (suc (suc (suc (4 * p + 3)))) = omega arith in
    let e2 : 4 * suc p + 2 ≡ suc (suc (suc (suc (4 * p + 2)))) = omega arith in
    let e1 : 4 * suc p + 1 ≡ suc (suc (suc (suc (4 * p + 1)))) = omega arith in
    let e0 : 4 * suc p ≡ suc (suc (suc (suc (4 * p)))) = omega arith in
    rw (e3, e2, e1, e0) (swap4-pixel rest p (omega arith))

pub length-swap3 : (xs : List ℕ) → length (swap3 xs) ≡ length xs
length-swap3 (b ∷ g ∷ r ∷ rest) = omega (arith, length-swap3 rest)
length-swap3 [] = refl
length-swap3 (b ∷ []) = refl
length-swap3 (b ∷ g ∷ []) = refl

pub length-swap4 : (xs : List ℕ) → length (swap4 xs) ≡ length xs
length-swap4 (b ∷ g ∷ r ∷ a ∷ rest) = omega (arith, length-swap4 rest)
length-swap4 [] = refl
length-swap4 (b ∷ []) = refl
length-swap4 (b ∷ g ∷ []) = refl
length-swap4 (b ∷ g ∷ r ∷ []) = refl

pub length-read_exactly : (n : ℕ) (xs ys : List ℕ) → read_exactly n xs ≡ some ys → length ys ≡ n
length-read_exactly zero xs ys h = ground arith
length-read_exactly (suc n) [] ys h = ground arith
length-read_exactly (suc n) (x ∷ xs) ys h = read_on (read_exactly n xs) (length-read_exactly n xs) h
  where
    read_on :
        (o : Option (List ℕ))
        → ((zs : List ℕ) → o ≡ some zs → length zs ≡ n)
        → elim o [ none ↦ none | some zs ↦ some (x ∷ zs) ] ≡ some ys
        → length ys ≡ suc n
    read_on none all h = ground arith
    read_on (some zs) all h = ground (arith, all zs refl)

get_or-read_exactly :
    (n : ℕ) (xs ys : List ℕ)
    → read_exactly n xs ≡ some ys
    → (i : ℕ) → i < n
    → get_or ys i 0 ≡ get_or xs i 0
get_or-read_exactly zero xs ys h = λ i below. absurd (omega arith)
get_or-read_exactly (suc n) [] ys h = ground arith
get_or-read_exactly (suc n) (x ∷ xs) ys h = read_on (read_exactly n xs) (get_or-read_exactly n xs) h
  where
    read_on :
        (o : Option (List ℕ))
        → ((zs : List ℕ) → o ≡ some zs → (i : ℕ) → i < n → get_or zs i 0 ≡ get_or xs i 0)
        → elim o [ none ↦ none | some zs ↦ some (x ∷ zs) ] ≡ some ys
        → (i : ℕ) → i < suc n
        → get_or ys i 0 ≡ get_or (x ∷ xs) i 0
    read_on none all h i below = ground arith
    read_on (some zs) all h zero below = let e : x ∷ zs ≡ ys = ground arith in rw (← e) refl
    read_on (some zs) all h (suc i) below =
        let e : x ∷ zs ≡ ys = ground arith in rw (← e) (all zs refl i (omega arith))

pub read_exactly-none : (n : ℕ) (xs : List ℕ) → read_exactly n xs ≡ none → length xs < n
read_exactly-none zero xs h = ground arith
read_exactly-none (suc n) [] h = omega arith
read_exactly-none (suc n) (x ∷ xs) h = read_on (read_exactly n xs) (read_exactly-none n xs) h
  where
    read_on :
        (o : Option (List ℕ))
        → (o ≡ none → length xs < n)
        → elim o [ none ↦ none | some zs ↦ some (x ∷ zs) ] ≡ none
        → suc (length xs) < suc n
    read_on none all h = omega (arith, all refl)
    read_on (some zs) all h = ground arith

get_or-skipped : (k : ℕ) (xs : List ℕ) (i : ℕ) → get_or (skipped k xs) i 0 ≡ get_or xs (k + i) 0
get_or-skipped zero xs i = ap (λ j. get_or xs j 0) (omega arith)
get_or-skipped (suc k) [] i = refl
get_or-skipped (suc k) (x ∷ xs) i =
    let e : suc k + i ≡ suc (k + i) = omega arith in rw e (get_or-skipped k xs i)

pub length-skipped : (k : ℕ) (xs : List ℕ) → length xs ≤ length (skipped k xs) + k
length-skipped zero xs = omega arith
length-skipped (suc k) [] = omega arith
length-skipped (suc k) (x ∷ xs) = omega (arith, length-skipped k xs)

-- A byte that was read, where it is in the file.
pub raw-byte :
    (file bytes : List ℕ) (n : ℕ)
    → read_exactly n (skipped 18 file) ≡ some bytes
    → (i : ℕ) → i < n
    → get_or bytes i 0 ≡ get_or file (18 + i) 0
raw-byte file bytes n read i below =
    get_or-read_exactly n (skipped 18 file) bytes read i below ∙ get_or-skipped 18 file i
