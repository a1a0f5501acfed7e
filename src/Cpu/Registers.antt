-- ===== src/Cpu/Registers.antt =====
-- The register pairs, the operand table `RegRef` and the flag tests of carbon-pc/src/gb/Cpu.cpp.
use open_carbon.Base.{
  ℕ, ◌+◌, ◌*◌, ◌/◌, ◌%◌, ◌^◌, Bool, Option, none, some, ◌==◌, if◌then◌else◌, u8, u16, bit,
}
use open_carbon.State.{Regs}

-- A register that `RegRef` can point to.
pub data Reg : Type 0 where
  b c d e h l a : Reg

unfoldable pub get_reg : Regs → Reg → ℕ
get_reg r b = r.b
get_reg r c = r.c
get_reg r d = r.d
get_reg r e = r.e
get_reg r h = r.h
get_reg r l = r.l
get_reg r a = r.a

unfoldable pub set_reg : Regs → Reg → ℕ → Regs
set_reg r b v = record r { b = v }
set_reg r c v = record r { c = v }
set_reg r d v = record r { d = v }
set_reg r e v = record r { e = v }
set_reg r h v = record r { h = v }
set_reg r l v = record r { l = v }
set_reg r a v = record r { a = v }

-- Operand index 0-7: B C D E H L (HL) A; `none` is the null pointer of (HL).
unfoldable pub reg_ref : ℕ → Option Reg
reg_ref index =
    let i = index % 8 in
    if i == 0
    then some b
    else if i == 1
    then some c
    else if i == 2
    then some d
    else if i == 3
    then some e
    else if i == 4
    then some h
    else if i == 5
    then some l
    else if i == 7
    then some a
    else none

pub data PairName : Type 0 where
  bc de hl : PairName

abbrev pub pair : ℕ → ℕ → ℕ
pair hi lo = u16 (hi * 2 ^ 8 + lo)

unfoldable pub get_pair : Regs → PairName → ℕ
get_pair r bc = pair r.b r.c
get_pair r de = pair r.d r.e
get_pair r hl = pair r.h r.l

unfoldable pub set_pair : Regs → PairName → ℕ → Regs
set_pair r bc v = record r { b = u8 (v / 2 ^ 8); c = u8 v }
set_pair r de v = record r { d = u8 (v / 2 ^ 8); e = u8 v }
set_pair r hl v = record r { h = u8 (v / 2 ^ 8); l = u8 v }

unfoldable pub flag_z : Regs → Bool
flag_z r = bit r.f 7 == 1

unfoldable pub flag_c : Regs → Bool
flag_c r = bit r.f 4 == 1

-- `cpu.f >> 4 & 1`
abbrev pub carry_in : Regs → ℕ
carry_in r = bit r.f 4
