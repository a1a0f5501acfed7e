-- ===== src/Cpu/Alu.antt =====
-- The arithmetic of carbon-pc/src/gb/Cpu.cpp: what each operation leaves in A, HL or SP and in F.
-- The flags are Z 0x80, N 0x40, H 0x20, C 0x10; where bits are disjoint `|` is written as a sum.
pub mod Flags
pub mod Decimal
use open_carbon.Base.{
  ℕ, ◌+◌, ◌-◌, ◌*◌, ◌/◌, ◌%◌, ◌^◌, ltb, ◌==◌, ◌&&◌, ◌||◌, if◌then◌else◌, bit_and, bit_or, bit_xor,
  u8, u16, u32, bit,
}
use open_carbon.State.{Regs}
use open_carbon.Cpu.Registers.{get_pair, set_pair, hl}

-- `x == 0 ? 0x80 : 0`
abbrev pub zero_flag : ℕ → ℕ
zero_flag x = if x == 0 then 0x80 else 0

-- A difference of `uint32_t`.
abbrev pub minus32 : ℕ → ℕ → ℕ
minus32 x y = u32 (x + 2 ^ 32 - y)

-- The reference that `Inc8` takes is its result here.
unfoldable pub inc8 : Regs → ℕ → Regs × ℕ
inc8 r old = (
  record r { f = r.f % 2 ^ 5 + zero_flag (u8 (old + 1)) + (if old % 16 == 0xf then 0x20 else 0) },
  u8 (old + 1),
)

unfoldable pub dec8 : Regs → ℕ → Regs × ℕ
dec8 r old = (
  record r {
    f = r.f % 2 ^ 5 + zero_flag (u8 (old + 2 ^ 8 - 1)) + (if old % 16 == 0 then 0x60 else 0x40);
  },
  u8 (old + 2 ^ 8 - 1),
)

unfoldable pub add8 : Regs → ℕ → ℕ → Regs
add8 r value carry =
    let sum = r.a + value + carry in
    record r {
      a = u8 sum;
      f =
          zero_flag (sum % 2 ^ 8)
          + bit (bit_xor (bit_xor r.a value) sum) 4 * 2 ^ 5
          + bit sum 8 * 2 ^ 4;
    }

unfoldable pub sub_flags : ℕ → ℕ → ℕ → ℕ
sub_flags a value diff =
    (if diff % 2 ^ 8 == 0 then 0xc0 else 0x40)
    + bit (bit_xor (bit_xor a value) diff) 4 * 2 ^ 5
    + bit diff 8 * 2 ^ 4

unfoldable pub sub8 : Regs → ℕ → ℕ → Regs
unfolding sub_flags
sub8 r value carry =
    let diff = minus32 (minus32 r.a value) carry in
    record r { a = u8 diff; f = sub_flags r.a value diff }

unfoldable pub cp8 : Regs → ℕ → Regs
unfolding sub_flags
cp8 r value = record r { f = sub_flags r.a value (minus32 r.a value) }

unfoldable pub and8 : Regs → ℕ → Regs
and8 r value = let x = bit_and r.a value in record r { a = x; f = if x == 0 then 0xa0 else 0x20 }

unfoldable pub xor8 : Regs → ℕ → Regs
xor8 r value = let x = bit_xor r.a value in record r { a = x; f = zero_flag x }

unfoldable pub or8 : Regs → ℕ → Regs
or8 r value = let x = bit_or r.a value in record r { a = x; f = zero_flag x }

unfoldable pub add_hl : Regs → ℕ → Regs
add_hl r value =
    let x = get_pair r hl in
    let sum = x + value in
    let r' = set_pair r hl (u16 sum) in
    record r' {
      f = bit_and r.f 0x8f + bit sum 16 * 2 ^ 4 + bit (bit_xor (bit_xor sum x) value) 12 * 2 ^ 5;
    }

-- A byte read as `int8_t` and widened to 32 bits.
abbrev pub sign_extend : ℕ → ℕ
sign_extend v = if ltb v 0x80 then v else v + 2 ^ 32 - 2 ^ 8

-- `SpPlusOffset` after its fetch of `v`: the flags, and the sum that it returns.
unfoldable pub sp_plus_offset : Regs → ℕ → Regs × ℕ
sp_plus_offset r v =
    let e = sign_extend v in
    let result = u32 (r.sp + e) in
    let carries = bit_xor (bit_xor r.sp e) result in
    (record r { f = bit carries 8 * 2 ^ 4 + bit carries 4 * 2 ^ 5 }, u16 result)

-- `Daa` after an addition: the value before the cast, and whether it sets C.
unfoldable pub daa_add : ℕ → ℕ → ℕ × ℕ
daa_add f a =
    let v = if ltb (bit_and a 0xe) 10 && bit f 5 == 0 then a else a + 6 in
    if bit f 4 == 1 || ltb 0x9f v then (bit_or f 0x10, v + 0x60) else (f, v)

unfoldable pub daa_sub : ℕ → ℕ → ℕ
daa_sub f a =
    let v = if bit f 5 == 0 then a else minus32 a 6 % 2 ^ 8 in
    if bit f 4 == 1 then minus32 v 0x60 else v

unfoldable pub daa : Regs → Regs
unfolding daa_add daa_sub
daa r =
    let (f, v) = if bit r.f 6 == 0 then daa_add r.f r.a else (r.f, daa_sub r.f r.a) in
    record r { f = bit_and f 0x5f + zero_flag (v % 2 ^ 8); a = u8 v }

-- RLCA, RRCA, RLA, RRA: Z is always cleared.
unfoldable pub rlca : Regs → Regs
rlca r = record r { f = bit r.a 7 * 2 ^ 4; a = u8 (r.a / 2 ^ 7 + r.a * 2) }

unfoldable pub rrca : Regs → Regs
rrca r = record r { f = bit r.a 0 * 2 ^ 4; a = u8 (r.a / 2 + r.a * 2 ^ 7) }

unfoldable pub rla : Regs → Regs
rla r = record r { f = bit r.a 7 * 2 ^ 4; a = u8 (r.a * 2 + bit r.f 4) }

unfoldable pub rra : Regs → Regs
rra r = record r { f = bit r.a 0 * 2 ^ 4; a = u8 (r.a / 2 + bit r.f 4 * 2 ^ 7) }

-- CPL, SCF, CCF.
unfoldable pub cpl : Regs → Regs
cpl r = record r { a = 0xff - r.a; f = bit_or r.f 0x60 }

unfoldable pub scf : Regs → Regs
scf r = record r { f = bit_or (bit_and r.f 0x9f) 0x10 }

unfoldable pub ccf : Regs → Regs
ccf r = record r { f = bit_xor (bit_and r.f 0x9f) 0x10 }
