-- ===== src/Base/Lists.antt =====
-- Lists measured and indexed by native numbers, byte memories as functions, and counted loops.
use Prim.Native.Nat.{ℕ, zero, suc, ◌+◌, ◌≤◌, ◌<◌}
use mathlib.Core.List.{List, [], ◌∷◌}
use native.Mathlib.Omega.{arith}
use open_carbon.Base.Tests.{◌==◌, if◌then◌else◌}

module _ {ℓ} {A : Type ℓ} where
  abbrev pub length : List A → ℕ
  length [] = 0
  length (x ∷ xs) = suc (length xs)

  abbrev pub get_or : List A → ℕ → A → A
  get_or [] i d = d
  get_or (x ∷ xs) zero d = x
  get_or (x ∷ xs) (suc i) d = get_or xs i d

  -- A predicate of every entry.
  abbrev pub All {κ} : (A → Type κ) → List A → Type κ
  All P [] = Unit
  All P (x ∷ xs) = P x × All P xs

  pub All-get_or {κ} :
      (P : A → Type κ) (xs : List A) (i : ℕ) (d : A) → All P xs → P d → P (get_or xs i d)
  All-get_or P [] i d h k = k
  All-get_or P (x ∷ xs) zero d h k = h.0
  All-get_or P (x ∷ xs) (suc i) d h k = All-get_or P xs i d h.1 k

-- A byte memory. A write replaces one cell.
abbrev pub Bytes : Type 0
Bytes = ℕ → ℕ

abbrev pub update : Bytes → ℕ → ℕ → Bytes
update f i v j = if i == j then v else f j

-- for (k = i; k < i + n; ++k) s = body k s
unfoldable pub for_range {ℓ} : {S : Type ℓ} → ℕ → ℕ → (ℕ → S → S) → S → S
for_range zero first round state = state
for_range (suc rounds) first round state = for_range rounds (first + 1) round (round first state)

-- What every round keeps, the loop keeps.
pub for_range_keeps {ℓ κ} :
    {S : Type ℓ} (P : S → Type κ) (n i : ℕ) (body : ℕ → S → S) (s : S)
    → ((k : ℕ) (t : S) → P t → P (body k t))
    → P s
    → P (for_range n i body s)
unfolding for_range
for_range_keeps P zero i body s keep h = h
for_range_keeps P (suc n) i body s keep h =
    for_range_keeps P n (i + 1) body (body i s) keep (keep i s h)

-- The same for a body that keeps it at the rounds' own indices.
pub for_range_keeps_below {ℓ κ} :
    {S : Type ℓ} (P : S → Type κ) (n i : ℕ) (body : ℕ → S → S) (s : S)
    → ((k : ℕ) (t : S) → i ≤ k → k < i + n → P t → P (body k t))
    → P s
    → P (for_range n i body s)
unfolding for_range
for_range_keeps_below P zero i body s keep h = h
for_range_keeps_below P (suc n) i body s keep h =
    for_range_keeps_below P n (i + 1) body (body i s)
      (λ k t p q. keep k t (omega arith) (omega arith)) (keep i s (omega arith) (omega arith) h)
