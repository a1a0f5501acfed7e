-- ===== src/Base/Bits.antt =====
-- Bit operations on native numbers: the law of the lowest digit, and what single bits hold.
use Prim.Native.Nat.{
  ℕ, zero, suc, ◌+◌, ◌*◌, ◌/◌, ◌%◌, ◌^◌, ◌≤◌, ◌<◌, min, max, differ, digits, bitwise, bit_and,
  bit_or, bit_xor, bit_and-bitwise, bit_or-bitwise, bit_xor-bitwise,
}
use mathlib.Core.Path.{◌≡◌, refl}
use native.Mathlib.Nat.{pow-suc}
use native.Mathlib.Omega.{arith}

-- The recursion on digits has fuel, of which the first argument is enough.
module _ (last : ℕ → ℕ) (join : ℕ → ℕ → ℕ) where
  digits_more : (n m a b : ℕ) → a ≤ n → a ≤ m → digits last join n a b ≡ digits last join m a b
  digits_more zero zero a b p q = refl
  digits_more zero (suc m) zero b p q = refl
  digits_more zero (suc m) (suc a) b p q = absurd (omega arith)
  digits_more (suc n) zero zero b p q = refl
  digits_more (suc n) zero (suc a) b p q = absurd (omega arith)
  digits_more (suc n) (suc m) zero b p q = refl
  digits_more (suc n) (suc m) (suc a) b p q =
      rw (digits_more n m (suc a / 2) (b / 2) (omega arith) (omega arith))

  bitwise-suc :
      (a b : ℕ)
      → bitwise last join (suc a) b
        ≡ bitwise last join (suc a / 2) (b / 2) * 2 + join (suc a % 2) (b % 2)
  bitwise-suc a b =
      omega (arith, digits_more a (suc a / 2) (suc a / 2) (b / 2) (omega arith) (omega arith))

pub bit_or_digit : (a b : ℕ) → bit_or a b ≡ bit_or (a / 2) (b / 2) * 2 + max (a % 2) (b % 2)
bit_or_digit zero b = simp bit_or-bitwise (omega arith)
bit_or_digit (suc a) b = simp bit_or-bitwise (bitwise-suc (λ y. y) max a b)

pub bit_and_digit : (a b : ℕ) → bit_and a b ≡ bit_and (a / 2) (b / 2) * 2 + min (a % 2) (b % 2)
bit_and_digit zero b = simp bit_and-bitwise (omega arith)
bit_and_digit (suc a) b = simp bit_and-bitwise (bitwise-suc (λ y. 0) min a b)

differ_digit : (a b : ℕ) → a < 2 → b < 2 → differ a b ≡ (a + b) % 2
differ_digit zero b h k = omega arith
differ_digit (suc a) zero h k = omega arith
differ_digit (suc zero) (suc zero) h k = refl
differ_digit (suc zero) (suc (suc b)) h k = absurd (omega arith)
differ_digit (suc (suc a)) (suc b) h k = absurd (omega arith)

pub bit_xor_digit : (a b : ℕ) → bit_xor a b ≡ bit_xor (a / 2) (b / 2) * 2 + (a % 2 + b % 2) % 2
bit_xor_digit zero b = simp bit_xor-bitwise (omega arith)
bit_xor_digit (suc a) b =
    simp bit_xor-bitwise
      (omega (arith, bitwise-suc (λ y. y) differ a b, differ_digit (suc a % 2) (b % 2)))

-- The casts to the fixed widths, and `x >> k & (2 ^ n - 1)`.
abbrev pub u8 : ℕ → ℕ
u8 x = x % 2 ^ 8

abbrev pub u16 : ℕ → ℕ
u16 x = x % 2 ^ 16

abbrev pub u32 : ℕ → ℕ
u32 x = x % 2 ^ 32

abbrev pub bits : ℕ → ℕ → ℕ → ℕ
bits x k n = x / 2 ^ k % 2 ^ n

-- `x >> k & 1`
abbrev pub bit : ℕ → ℕ → ℕ
bit x zero = x % 2
bit x (suc k) = bit (x / 2) k

pub bit-bit_or : (k a b : ℕ) → bit (bit_or a b) k ≡ max (bit a k) (bit b k)
bit-bit_or zero a b = omega (arith, bit_or_digit a b)
bit-bit_or (suc k) a b = rw (bit_or_digit a b) (rw half (bit-bit_or k (a / 2) (b / 2)))
  where
    half : (bit_or (a / 2) (b / 2) * 2 + max (a % 2) (b % 2)) / 2 ≡ bit_or (a / 2) (b / 2)
    half = omega arith

pub bit-bit_and : (k a b : ℕ) → bit (bit_and a b) k ≡ min (bit a k) (bit b k)
bit-bit_and zero a b = omega (arith, bit_and_digit a b)
bit-bit_and (suc k) a b = rw (bit_and_digit a b) (rw half (bit-bit_and k (a / 2) (b / 2)))
  where
    half : (bit_and (a / 2) (b / 2) * 2 + min (a % 2) (b % 2)) / 2 ≡ bit_and (a / 2) (b / 2)
    half = omega arith

pub bit-bit_xor : (k a b : ℕ) → bit (bit_xor a b) k ≡ (bit a k + bit b k) % 2
bit-bit_xor zero a b = omega (arith, bit_xor_digit a b)
bit-bit_xor (suc k) a b = rw (bit_xor_digit a b) (rw half (bit-bit_xor k (a / 2) (b / 2)))
  where
    half : (bit_xor (a / 2) (b / 2) * 2 + (a % 2 + b % 2) % 2) / 2 ≡ bit_xor (a / 2) (b / 2)
    half = omega arith

-- A result of bytes is a byte; likewise at every width.
pub bit_or-lt : (k a b : ℕ) → a < 2 ^ k → b < 2 ^ k → bit_or a b < 2 ^ k
bit_or-lt zero zero zero h l = omega arith
bit_or-lt zero zero (suc b) h l = absurd (omega arith)
bit_or-lt zero (suc a) b h l = absurd (omega arith)
bit_or-lt (suc k) a b h l =
    let halves =
      bit_or-lt k (a / 2) (b / 2) (omega (arith, pow-suc 2 k)) (omega (arith, pow-suc 2 k)) in
    omega (arith, pow-suc 2 k, bit_or_digit a b, halves)

pub bit_xor-lt : (k a b : ℕ) → a < 2 ^ k → b < 2 ^ k → bit_xor a b < 2 ^ k
bit_xor-lt zero zero zero h l = omega arith
bit_xor-lt zero zero (suc b) h l = absurd (omega arith)
bit_xor-lt zero (suc a) b h l = absurd (omega arith)
bit_xor-lt (suc k) a b h l =
    let halves =
      bit_xor-lt k (a / 2) (b / 2) (omega (arith, pow-suc 2 k)) (omega (arith, pow-suc 2 k)) in
    omega (arith, pow-suc 2 k, bit_xor_digit a b, halves)

-- The result of `&` is at most either operand.
bit_and-le_fuel : (n a b : ℕ) → a ≤ n → (bit_and a b ≤ a) × (bit_and a b ≤ b)
bit_and-le_fuel zero a b h =
    let e : a ≡ 0 = omega arith in rw (e, bit_and-bitwise 0 b) (omega arith)
bit_and-le_fuel (suc n) zero b h = rw (bit_and-bitwise 0 b) (omega arith)
bit_and-le_fuel (suc n) (suc a) b h =
    omega (arith, bit_and_digit (suc a) b, bit_and-le_fuel n (suc a / 2) (b / 2) (omega arith))

pub bit_and-le_left : (a b : ℕ) → bit_and a b ≤ a
bit_and-le_left a b = (bit_and-le_fuel a a b (omega arith)).0

pub bit_and-le_right : (a b : ℕ) → bit_and a b ≤ b
bit_and-le_right a b = (bit_and-le_fuel a a b (omega arith)).1
