-- ===== src/Cpu/Valid/Alu.antt =====
-- The operations on registers keep their ranges.
use open_carbon.Base.{
  ℕ, ◌+◌, ◌-◌, ◌^◌, ◌<◌, refl, arith, ◌==◌, Bool-cases, inl, inr, bit, bit_and, bit_or, bit_xor,
  all_below, bit_or-lt, bit_xor-lt, bit_and-le_left,
}
use open_carbon.State.{Regs}
use open_carbon.Cpu.Registers.{
  Reg, a, b, c, d, e, h, l, get_reg, set_reg, PairName, bc, de, hl, get_pair, set_pair,
}
use open_carbon.Cpu.Alu.{
  inc8, dec8, add8, sub_flags, sub8, cp8, and8, xor8, or8, add_hl, sp_plus_offset, daa_add, daa,
  rlca, rrca, rla, rra, cpl, scf, ccf, zero_flag,
}
use open_carbon.Cpu.Cb.{
  shift_result, shift_flags, test_flags, shift_carry, reset_bit, set_bit, cb_value, cb_flags,
}
use open_carbon.Cpu.Execute.{arithmetic}
use open_carbon.Cpu.Valid.{IsFlags, RegsIsValid, Computes, IsFlags-by_table}

pub get_reg-lt : (r : Regs) (reg : Reg) → RegsIsValid r → get_reg r reg < 2 ^ 8
unfolding get_reg
get_reg-lt r a v = v.a
get_reg-lt r b v = v.b
get_reg-lt r c v = v.c
get_reg-lt r d v = v.d
get_reg-lt r e v = v.e
get_reg-lt r h v = v.h
get_reg-lt r l v = v.l

pub set_reg-Computes :
    (r : Regs) (reg : Reg) (x : ℕ) → RegsIsValid r → x < 2 ^ 8 → Computes r (set_reg r reg x)
unfolding set_reg
set_reg-Computes r a x v hx = ground arith
set_reg-Computes r b x v hx = ground arith
set_reg-Computes r c x v hx = ground arith
set_reg-Computes r d x v hx = ground arith
set_reg-Computes r e x v hx = ground arith
set_reg-Computes r h x v hx = ground arith
set_reg-Computes r l x v hx = ground arith

pub set_pair-Computes :
    (r : Regs) (p : PairName) (x : ℕ) → RegsIsValid r → Computes r (set_pair r p x)
unfolding set_pair
set_pair-Computes r bc x v = ground arith
set_pair-Computes r de x v = ground arith
set_pair-Computes r hl x v = ground arith

pub get_pair-lt : (r : Regs) (p : PairName) → get_pair r p < 2 ^ 16
unfolding get_pair
get_pair-lt r bc = omega arith
get_pair-lt r de = omega arith
get_pair-lt r hl = omega arith

-- F and A are new; all else is as it was.
set_af-Computes :
    (r : Regs) (f' a' : ℕ)
    → RegsIsValid r
    → IsFlags f'
    → a' < 2 ^ 8
    → Computes r (record r { f = f'; a = a' })
set_af-Computes r f' a' v hf ha = ground arith

pub inc8-Computes :
    (r : Regs) (x : ℕ) → RegsIsValid r → Computes r (inc8 r x).0 × ((inc8 r x).1 < 2 ^ 8)
unfolding inc8
inc8-Computes r x v = (set_af-Computes r _ r.a v (ground arith) v.a, omega arith)

pub dec8-Computes :
    (r : Regs) (x : ℕ) → RegsIsValid r → Computes r (dec8 r x).0 × ((dec8 r x).1 < 2 ^ 8)
unfolding dec8
dec8-Computes r x v = (set_af-Computes r _ r.a v (ground arith) v.a, omega arith)

sub_flags-IsFlags : (x y z : ℕ) → IsFlags (sub_flags x y z)
unfolding sub_flags
sub_flags-IsFlags x y z = ground arith

pub add8-Computes : (r : Regs) (x y : ℕ) → RegsIsValid r → Computes r (add8 r x y)
unfolding add8
add8-Computes r x y v = set_af-Computes r _ _ v (ground arith) (omega arith)

pub sub8-Computes : (r : Regs) (x y : ℕ) → RegsIsValid r → Computes r (sub8 r x y)
unfolding sub8
sub8-Computes r x y v = set_af-Computes r _ _ v (sub_flags-IsFlags _ _ _) (omega arith)

pub cp8-Computes : (r : Regs) (x : ℕ) → RegsIsValid r → Computes r (cp8 r x)
unfolding cp8
cp8-Computes r x v = set_af-Computes r _ r.a v (sub_flags-IsFlags _ _ _) v.a

pub and8-Computes : (r : Regs) (x : ℕ) → RegsIsValid r → Computes r (and8 r x)
unfolding and8
and8-Computes r x v = set_af-Computes r _ _ v (ground arith) (omega (arith, bit_and-le_left r.a x))

pub xor8-Computes : (r : Regs) (x : ℕ) → RegsIsValid r → x < 2 ^ 8 → Computes r (xor8 r x)
unfolding xor8
xor8-Computes r x v hx = set_af-Computes r _ _ v (ground arith) (bit_xor-lt 8 r.a x v.a hx)

pub or8-Computes : (r : Regs) (x : ℕ) → RegsIsValid r → x < 2 ^ 8 → Computes r (or8 r x)
unfolding or8
or8-Computes r x v hx = set_af-Computes r _ _ v (ground arith) (bit_or-lt 8 r.a x v.a hx)

pub arithmetic-Computes :
    (k : ℕ) (r : Regs) (x : ℕ) → RegsIsValid r → x < 2 ^ 8 → Computes r (arithmetic k r x)
unfolding arithmetic
arithmetic-Computes k r x v hx = ground (
  arith,
  add8-Computes r x 0 v,
  add8-Computes r x (bit r.f 4) v,
  sub8-Computes r x 0 v,
  sub8-Computes r x (bit r.f 4) v,
  and8-Computes r x v,
  xor8-Computes r x v hx,
  or8-Computes r x v hx,
  cp8-Computes r x v,
)

pub add_hl-Computes : (r : Regs) (x : ℕ) → RegsIsValid r → Computes r (add_hl r x)
unfolding add_hl set_pair all_below
add_hl-Computes r x v =
    ground (arith, IsFlags-by_table (λ f. bit_and f 0x8f + 0x30) r.f refl v.flags)

-- The offset sum of SP: its flags, and a result of 16 bits.
pub sp_plus_offset-Computes :
    (r : Regs) (x : ℕ)
    → RegsIsValid r
    → Computes r (sp_plus_offset r x).0 × ((sp_plus_offset r x).1 < 2 ^ 16)
unfolding sp_plus_offset
sp_plus_offset-Computes r x v = (set_af-Computes r _ r.a v (omega arith) v.a, omega arith)

daa_flags : (f y : ℕ) → IsFlags f → IsFlags (bit_and f 0x5f + zero_flag y)
unfolding all_below
daa_flags f y valid = ground (arith, IsFlags-by_table (λ g. bit_and g 0x5f + 0x80) f refl valid)

daa_add-IsFlags : (f x : ℕ) → IsFlags f → IsFlags (daa_add f x).0
unfolding daa_add all_below
daa_add-IsFlags f x valid = ground (arith, IsFlags-by_table (λ g. bit_or g 0x10) f refl valid)

pub daa-Computes : (r : Regs) → RegsIsValid r → Computes r (daa r)
unfolding daa
daa-Computes r v = elim (Bool-cases (bit r.f 6 == 0)) [
  | inl added ↦
      rw added
        (set_af-Computes r _ _ v (daa_flags _ _ (daa_add-IsFlags r.f r.a v.flags)) (omega arith))
  | inr subtracted ↦ rw subtracted (set_af-Computes r _ _ v (daa_flags r.f _ v.flags) (omega arith))
]

pub rlca-Computes : (r : Regs) → RegsIsValid r → Computes r (rlca r)
unfolding rlca
rlca-Computes r v = set_af-Computes r _ _ v (omega arith) (omega arith)

pub rrca-Computes : (r : Regs) → RegsIsValid r → Computes r (rrca r)
unfolding rrca
rrca-Computes r v = set_af-Computes r _ _ v (omega arith) (omega arith)

pub rla-Computes : (r : Regs) → RegsIsValid r → Computes r (rla r)
unfolding rla
rla-Computes r v = set_af-Computes r _ _ v (omega arith) (omega arith)

pub rra-Computes : (r : Regs) → RegsIsValid r → Computes r (rra r)
unfolding rra
rra-Computes r v = set_af-Computes r _ _ v (omega arith) (omega arith)

pub cpl-Computes : (r : Regs) → RegsIsValid r → Computes r (cpl r)
unfolding cpl all_below
cpl-Computes r v =
    set_af-Computes r _ _ v (IsFlags-by_table (λ f. bit_or f 0x60) r.f refl v.flags) (omega arith)

pub scf-Computes : (r : Regs) → RegsIsValid r → Computes r (scf r)
unfolding scf all_below
scf-Computes r v =
    set_af-Computes r _ r.a v
      (IsFlags-by_table (λ f. bit_or (bit_and f 0x9f) 0x10) r.f refl v.flags) v.a

pub ccf-Computes : (r : Regs) → RegsIsValid r → Computes r (ccf r)
unfolding ccf all_below
ccf-Computes r v =
    set_af-Computes r _ r.a v
      (IsFlags-by_table (λ f. bit_xor (bit_and f 0x9f) 0x10) r.f refl v.flags) v.a

-- The CB operations: the value is a byte, and F has its low nibble clear.
shift_result-lt : (group x carry : ℕ) → x < 2 ^ 8 → shift_result group x carry < 2 ^ 8
unfolding shift_result
shift_result-lt group x carry hx = ground arith

pub cb_value-lt : (group x carry : ℕ) → x < 2 ^ 8 → cb_value group x carry < 2 ^ 8
unfolding cb_value reset_bit set_bit
cb_value-lt group x carry hx = ground (arith, shift_result-lt group x carry hx)

shift_flags-IsFlags :
    (group f result carry : ℕ) → IsFlags f → IsFlags (shift_flags group f result carry)
unfolding shift_flags
shift_flags-IsFlags group f result carry valid = ground arith

test_flags-IsFlags : (f x n : ℕ) → IsFlags f → IsFlags (test_flags f x n)
unfolding test_flags
test_flags-IsFlags f x n valid = ground arith

pub cb_flags-IsFlags : (group f x : ℕ) → IsFlags f → IsFlags (cb_flags group f x)
unfolding cb_flags
cb_flags-IsFlags group f x valid = ground (
  arith,
  shift_flags-IsFlags group f (shift_result group x (bit f 4)) (shift_carry group x) valid,
  test_flags-IsFlags f x (group - 8) valid,
)
