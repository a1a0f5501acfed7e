-- ===== src/App/Input/Edges.antt =====
-- `Input::Update` of carbon-pc/src/app/Input.cpp bit by bit.
use open_carbon.Base.{
  ℕ, ◌+◌, ◌-◌, ◌*◌, ◌%◌, ◌≤◌, min, ◌≡◌, refl, arith, bit, bit_and, bit_xor, bit-bit_and,
  bit-bit_xor, zero, suc, ◌/◌,
}
use open_carbon.App.Input.{Input, Npad, input_update}

pub bit_lt : (k a : ℕ) → bit a k ≤ 1
bit_lt zero a = omega arith
bit_lt (suc k) a = bit_lt k (a / 2)

pub min_edge : (x y : ℕ) → x ≤ 1 → y ≤ 1 → min ((x + y) % 2) x ≡ x * (1 - y)
min_edge zero y h l = omega arith
min_edge (suc zero) zero h l = refl
min_edge (suc zero) (suc zero) h l = refl
min_edge (suc zero) (suc (suc y)) h l = absurd (omega arith)
min_edge (suc (suc x)) y h l = absurd (omega arith)

pub bit-edge : (k a b : ℕ) → bit (bit_and (bit_xor a b) a) k ≡ bit a k * (1 - bit b k)
bit-edge k a b =
    rw (bit-bit_and k (bit_xor a b) a, bit-bit_xor k a b)
      (min_edge (bit a k) (bit b k) (bit_lt k a) (bit_lt k b))

pub bit-edge_right : (k a b : ℕ) → bit (bit_and (bit_xor a b) b) k ≡ bit b k * (1 - bit a k)
bit-edge_right k a b =
    let swap : (bit a k + bit b k) % 2 ≡ (bit b k + bit a k) % 2 = omega arith in
    rw (bit-bit_and k (bit_xor a b) b, bit-bit_xor k a b, swap)
      (min_edge (bit b k) (bit a k) (bit_lt k b) (bit_lt k a))

-- A button counts as pressed in the frame in which it is held and was not before, and as released
-- in the frame in which it was held before and is not.
pub input_update-edges :
    (i : Input) (pad : Npad) (k : ℕ)
    → let next = input_update i pad in
      (bit next.pressed k ≡ bit next.held k * (1 - bit i.held k))
      × (bit next.released k ≡ bit i.held k * (1 - bit next.held k))
      × (next.prev_held ≡ i.held)
unfolding input_update
input_update-edges i pad k =
    let held = (input_update i pad).held in
    (bit-edge k held i.held, bit-edge_right k held i.held, refl)
