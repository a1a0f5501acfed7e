-- ===== src/Cpu/Alu/Decimal.antt =====
-- `Daa` of carbon-pc/src/gb/Cpu.cpp on binary-coded decimals.
use open_carbon.Base.{
  ℕ, ◌+◌, ◌-◌, ◌*◌, ◌/◌, ◌%◌, ◌<◌, ◌≡◌, refl, Bool, true, ltb, leb, ◌==◌, ◌&&◌, if◌then◌else◌, bit,
  ==_iff, and-true, all_below, all_below_sound,
}
use open_carbon.State.{Regs}
use open_carbon.Cpu.Alu.{add8, sub8, daa}

-- Two decimal digits in the nibbles of a byte.
abbrev pub bcd : ℕ → ℕ
bcd n = n / 10 * 16 + n % 10

abbrev holding : ℕ → Regs
holding a = record {
  f = 0;
  a = a;
  c = 0;
  b = 0;
  e = 0;
  d = 0;
  l = 0;
  h = 0;
  sp = 0;
  pc = 0;
  halted = 0;
  ticks = 0;
  rst38_marker = 0;
}

-- What the two results should be, with the decimal carry.
abbrev is_decimal : Regs → ℕ → Bool → Bool
is_decimal r n carry = r.a == bcd n && bit r.f 4 == (if carry then 1 else 0)

sum_row : ℕ → ℕ → ℕ → Bool
sum_row c x y =
    is_decimal (daa (add8 (holding (bcd x)) (bcd y) c)) ((x + y + c) % 100) (leb 100 (x + y + c))

difference_row : ℕ → ℕ → ℕ → Bool
difference_row c x y =
    is_decimal (daa (sub8 (holding (bcd x)) (bcd y) c)) ((x + 200 - y - c) % 100) (ltb x (y + c))

sum_table : all_below 2 (λ c. all_below 100 (λ x. all_below 100 (sum_row c x))) ≡ true
unfolding all_below sum_row daa add8
sum_table = refl

difference_table : all_below 2 (λ c. all_below 100 (λ x. all_below 100 (difference_row c x))) ≡ true
unfolding all_below difference_row daa sub8
difference_table = refl

-- An entry of a table over a carry and two numbers of two digits.
entry :
    (p : ℕ → ℕ → ℕ → Bool)
    → all_below 2 (λ c. all_below 100 (λ x. all_below 100 (p c x))) ≡ true
    → (c x y : ℕ) → c < 2
    → x < 100
    → y < 100
    → p c x y ≡ true
entry p table c x y hc hx hy =
    all_below_sound 100 (p c x) y
      (all_below_sound 100 (λ x. all_below 100 (p c x)) x
        (all_below_sound 2 (λ c. all_below 100 (λ x. all_below 100 (p c x))) c table hc) hx)
      hy

-- A and F after DAA depend on A alone.
sum_of_a :
    (r : Regs) (v c : ℕ)
    → let r' = daa (add8 r v c) in
      let s' = daa (add8 (holding r.a) v c) in (r'.a ≡ s'.a) × (r'.f ≡ s'.f)
unfolding daa add8
sum_of_a r v c = (refl, refl)

difference_of_a :
    (r : Regs) (v c : ℕ)
    → let r' = daa (sub8 r v c) in
      let s' = daa (sub8 (holding r.a) v c) in (r'.a ≡ s'.a) × (r'.f ≡ s'.f)
unfolding daa sub8
difference_of_a r v c = (refl, refl)

-- DAA after an addition of two-digit decimals with a carry: A holds the decimal sum modulo 100, and
-- C whether the sum reached 100.
pub daa-add8 :
    (r : Regs) (x y c : ℕ)
    → x < 100
    → y < 100
    → c < 2
    → r.a ≡ bcd x
    → let r' = daa (add8 r (bcd y) c) in
      (r'.a ≡ bcd ((x + y + c) % 100)) × (bit r'.f 4 ≡ (if leb 100 (x + y + c) then 1 else 0))
unfolding sum_row
daa-add8 r x y c hx hy hc h =
    let e = and-true _ _ (entry sum_row sum_table c x y hc hx hy) in
    rw ((sum_of_a r (bcd y) c).0, (sum_of_a r (bcd y) c).1, h)
      ((==_iff _ _).0 e.0, (==_iff _ _).0 e.1)

-- DAA after a subtraction of two-digit decimals with a borrow: A holds the decimal difference
-- modulo 100, and C whether it went below zero.
pub daa-sub8 :
    (r : Regs) (x y c : ℕ)
    → x < 100
    → y < 100
    → c < 2
    → r.a ≡ bcd x
    → let r' = daa (sub8 r (bcd y) c) in
      (r'.a ≡ bcd ((x + 200 - y - c) % 100)) × (bit r'.f 4 ≡ (if ltb x (y + c) then 1 else 0))
unfolding difference_row
daa-sub8 r x y c hx hy hc h =
    let e = and-true _ _ (entry difference_row difference_table c x y hc hx hy) in
    rw ((difference_of_a r (bcd y) c).0, (difference_of_a r (bcd y) c).1, h)
      ((==_iff _ _).0 e.0, (==_iff _ _).0 e.1)
