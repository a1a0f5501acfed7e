-- ===== src/Base/Text.antt =====
-- Texts as lists of bytes: comparison, and numbers in decimal.
use Prim.Native.Nat.{ℕ, zero, suc, ◌+◌, ◌/◌, ◌%◌}
use mathlib.Core.Bool.{Bool, true, false, ◌&&◌}
use mathlib.Core.List.{List, [], ◌∷◌}
use mathlib.Core.Path.{◌≡◌, refl}
use native.Mathlib.Omega.{arith}
use open_carbon.Base.Tests.{◌==◌, ==_iff, ltb, if◌then◌else◌}

abbrev pub same : List ℕ → List ℕ → Bool
same [] [] = true
same [] (y ∷ ys) = false
same (x ∷ xs) [] = false
same (x ∷ xs) (y ∷ ys) = x == y && same xs ys

pub same_self : (xs : List ℕ) → same xs xs ≡ true
same_self [] = refl
same_self (x ∷ xs) = ground (arith, same_self xs, (==_iff x x).1 refl)

-- `std::to_string` of a number that is not negative. A number has no more digits than its value and
-- one.
unfoldable pub digits_before : ℕ → ℕ → List ℕ → List ℕ
digits_before zero n after = after
digits_before (suc fuel) n after =
    let rest = digits_before fuel (n / 10) ((b'0' + n % 10) ∷ after) in
    if ltb n 10 then (b'0' + n % 10) ∷ after else rest

unfoldable pub decimal : ℕ → List ℕ
unfolding digits_before
decimal n = digits_before (n + 1) n []
