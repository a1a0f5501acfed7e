-- ===== src/Cpu/Alu/Flags.antt =====
-- The flags that the arithmetic of carbon-pc/src/gb/Cpu.cpp leaves, without the carries that the
-- code reads off exclusive or.
use open_carbon.Base.{
  ℕ, ◌+◌, ◌-◌, ◌/◌, ◌%◌, ◌^◌, ◌<◌, ◌≡◌, refl, Bool, true, false, ltb, leb, ◌==◌, if◌then◌else◌,
  arith, bit_xor, bit, bit-bit_xor,
}
use open_carbon.State.{Regs}
use open_carbon.Cpu.Alu.{add8, sub8, sub_flags, minus32}

-- Z, N, H and C as a byte.
abbrev pub flags : Bool → Bool → Bool → Bool → ℕ
flags z n h c =
    (if z then 0x80 else 0)
    + (if n then 0x40 else 0)
    + (if h then 0x20 else 0)
    + (if c then 0x10 else 0)

-- The exclusive or of two operands and their sum shows the carry into bit 4.
half_carry : (a v s : ℕ) → bit (bit_xor (bit_xor a v) s) 4 ≡ (a / 16 + v / 16 + s / 16) % 2
half_carry a v s = omega (arith, bit-bit_xor 4 (bit_xor a v) s, bit-bit_xor 4 a v)

-- An addition of bytes with a carry bit: the sum modulo 256; Z when that is zero, H when the low
-- nibbles carry, C when the bytes carry, N clear.
pub add8_lem :
    (r : Regs) (v c : ℕ)
    → r.a < 2 ^ 8
    → v < 2 ^ 8
    → c < 2
    → ((add8 r v c).a ≡ (r.a + v + c) % 2 ^ 8)
      × ((add8 r v c).f
          ≡ flags
              ((r.a + v + c) % 2 ^ 8 == 0)
              false
              (leb 16 (r.a % 16 + v % 16 + c))
              (leb 256 (r.a + v + c)))
unfolding add8
add8_lem r v c ha hv hc = (refl, ground (arith, half_carry r.a v (r.a + v + c)))

-- The difference as it is computed in 32 bits, with its borrow.
sub_flags_lem :
    (a v c : ℕ)
    → a < 2 ^ 8
    → v < 2 ^ 8
    → c < 2
    → sub_flags a v (minus32 (minus32 a v) c)
      ≡ flags ((a + 2 ^ 9 - v - c) % 2 ^ 8 == 0) true (ltb (a % 16) (v % 16 + c)) (ltb a (v + c))
unfolding sub_flags
sub_flags_lem a v c ha hv hc = ground (arith, half_carry a v (minus32 (minus32 a v) c))

-- A subtraction of bytes with a borrow bit: the difference modulo 256; Z when that is zero, H when the
-- low nibbles borrow, C when the bytes borrow, N set.
pub sub8_lem :
    (r : Regs) (v c : ℕ)
    → r.a < 2 ^ 8
    → v < 2 ^ 8
    → c < 2
    → ((sub8 r v c).a ≡ (r.a + 2 ^ 9 - v - c) % 2 ^ 8)
      × ((sub8 r v c).f
          ≡ flags
              ((r.a + 2 ^ 9 - v - c) % 2 ^ 8 == 0)
              true
              (ltb (r.a % 16) (v % 16 + c))
              (ltb r.a (v + c)))
unfolding sub8
sub8_lem r v c ha hv hc = (omega arith, sub_flags_lem r.a v c ha hv hc)
