-- ===== src/Cpu/Valid/Low.antt =====
-- The cases 0x00-0x3f of `Execute` of carbon-pc/src/gb/Cpu.cpp keep the registers' ranges.
use open_carbon.Base.{ℕ, ◌+◌, ◌-◌, ◌^◌, arith, List, [], ◌∷◌, u16}
use open_carbon.State.{Regs, Machine}
use open_carbon.Memory.{read16}
use open_carbon.Memory.Frame.{write16-Untouched}
use open_carbon.Cpu.Registers.{Reg, a, b, c, d, e, h, l, get_reg, PairName, bc, de, hl, get_pair}
use open_carbon.Cpu.Alu.{inc8, dec8, add_hl}
use open_carbon.Cpu.Bus.{fetch16}
use open_carbon.Cpu.Execute.Cases.{Case, on_regs, inc_pair, dec_pair, inc_reg, dec_reg}
use open_carbon.Cpu.Execute.Low.{
  store_sp, jump_by, load_sp, store_imm, cases_00, cases_10, cases_20, cases_30,
}
use open_carbon.Cpu.Valid.{RegsIsValid, Computes}
use open_carbon.Cpu.Valid.Alu.{
  set_reg-Computes, set_pair-Computes, inc8-Computes, dec8-Computes, add_hl-Computes, daa-Computes,
  rlca-Computes, rrca-Computes, rla-Computes, rra-Computes, cpl-Computes, scf-Computes,
  ccf-Computes,
}
use open_carbon.Cpu.Valid.Cases.{
  IsSound, read16-lt, regs-write8, on_regs-IsSound, load_pair-IsSound, load_reg-IsSound,
  store_a-IsSound, load_a-IsSound, store_stepping-IsSound, load_stepping-IsSound, modify_hl-IsSound,
  jump_relative-IsSound, illegal-IsSound, stop-IsSound,
}

inc_pair-Computes : (p : PairName) (r : Regs) → RegsIsValid r → Computes r (inc_pair p r)
unfolding inc_pair
inc_pair-Computes p r v = set_pair-Computes r p _ v

dec_pair-Computes : (p : PairName) (r : Regs) → RegsIsValid r → Computes r (dec_pair p r)
unfolding dec_pair
dec_pair-Computes p r v = set_pair-Computes r p _ v

inc_reg-Computes : (reg : Reg) (r : Regs) → RegsIsValid r → Computes r (inc_reg reg r)
unfolding inc_reg
inc_reg-Computes reg r v =
    let (first, byte) = inc8-Computes r (get_reg r reg) v in
    ground (arith, set_reg-Computes (inc8 r (get_reg r reg)).0 reg _ first.valid byte)

dec_reg-Computes : (reg : Reg) (r : Regs) → RegsIsValid r → Computes r (dec_reg reg r)
unfolding dec_reg
dec_reg-Computes reg r v =
    let (first, byte) = dec8-Computes r (get_reg r reg) v in
    ground (arith, set_reg-Computes (dec8 r (get_reg r reg)).0 reg _ first.valid byte)

infixr 20 ◌▸◌
pub data EachIsSound : List Case → Type 0 where
  done : EachIsSound []
  ◌▸◌ :
      {k : ℕ} {body : Machine → Machine} {cases : List Case}
      → IsSound body
      → EachIsSound cases
      → EachIsSound ((k, body) ∷ cases)

store_sp-IsSound : IsSound store_sp
unfolding store_sp
store_sp-IsSound m v = ground (arith, (write16-Untouched m (read16 m m.regs.pc) m.regs.sp).regs)

jump_by-IsSound : IsSound jump_by
unfolding jump_by
jump_by-IsSound m v = ground arith

add_hl-Computes_at : (g : Regs → ℕ) (r : Regs) → RegsIsValid r → Computes r (add_hl r (g r))
add_hl-Computes_at g r v = add_hl-Computes r (g r) v

pub on4 :
    (g : Regs → Regs) → ((r : Regs) → RegsIsValid r → Computes r (g r)) → IsSound (on_regs 4 g)
on4 g computes = on_regs-IsSound 4 g (omega arith) (omega arith) computes

pub on8 :
    (g : Regs → Regs) → ((r : Regs) → RegsIsValid r → Computes r (g r)) → IsSound (on_regs 8 g)
on8 g computes = on_regs-IsSound 8 g (omega arith) (omega arith) computes

pub cases_00-EachIsSound : EachIsSound cases_00
unfolding cases_00
cases_00-EachIsSound =
    illegal-IsSound
    ▸ load_pair-IsSound bc
    ▸ store_a-IsSound bc
    ▸ on8 _ (inc_pair-Computes bc)
    ▸ on4 _ (inc_reg-Computes b)
    ▸ on4 _ (dec_reg-Computes b)
    ▸ load_reg-IsSound b
    ▸ on4 _ rlca-Computes
    ▸ store_sp-IsSound
    ▸ on8 _ (add_hl-Computes_at (λ r. get_pair r bc))
    ▸ load_a-IsSound bc
    ▸ on8 _ (dec_pair-Computes bc)
    ▸ on4 _ (inc_reg-Computes c)
    ▸ on4 _ (dec_reg-Computes c)
    ▸ load_reg-IsSound c
    ▸ on4 _ rrca-Computes
    ▸ done

pub cases_10-EachIsSound : EachIsSound cases_10
unfolding cases_10
cases_10-EachIsSound =
    stop-IsSound
    ▸ load_pair-IsSound de
    ▸ store_a-IsSound de
    ▸ on8 _ (inc_pair-Computes de)
    ▸ on4 _ (inc_reg-Computes d)
    ▸ on4 _ (dec_reg-Computes d)
    ▸ load_reg-IsSound d
    ▸ on4 _ rla-Computes
    ▸ jump_by-IsSound
    ▸ on8 _ (add_hl-Computes_at (λ r. get_pair r de))
    ▸ load_a-IsSound de
    ▸ on8 _ (dec_pair-Computes de)
    ▸ on4 _ (inc_reg-Computes e)
    ▸ on4 _ (dec_reg-Computes e)
    ▸ load_reg-IsSound e
    ▸ on4 _ rra-Computes
    ▸ done

pub cases_20-EachIsSound : EachIsSound cases_20
unfolding cases_20
cases_20-EachIsSound =
    (λ m v. jump_relative-IsSound _ m v)
    ▸ load_pair-IsSound hl
    ▸ store_stepping-IsSound _ (inc_pair-Computes hl)
    ▸ on8 _ (inc_pair-Computes hl)
    ▸ on4 _ (inc_reg-Computes h)
    ▸ on4 _ (dec_reg-Computes h)
    ▸ load_reg-IsSound h
    ▸ on4 _ daa-Computes
    ▸ (λ m v. jump_relative-IsSound _ m v)
    ▸ on8 _ (add_hl-Computes_at (λ r. get_pair r hl))
    ▸ load_stepping-IsSound _ (inc_pair-Computes hl)
    ▸ on8 _ (dec_pair-Computes hl)
    ▸ on4 _ (inc_reg-Computes l)
    ▸ on4 _ (dec_reg-Computes l)
    ▸ load_reg-IsSound l
    ▸ on4 _ cpl-Computes
    ▸ done

load_sp-IsSound : IsSound load_sp
unfolding load_sp fetch16
load_sp-IsSound m v = ground (arith, read16-lt m m.regs.pc)

store_imm-IsSound : IsSound store_imm
unfolding store_imm
store_imm-IsSound m v = rw regs-write8 (ground arith)

inc_sp-Computes : (r : Regs) → RegsIsValid r → Computes r (record r { sp = u16 (r.sp + 1) })
inc_sp-Computes r v = ground arith

dec_sp-Computes :
    (r : Regs) → RegsIsValid r → Computes r (record r { sp = u16 (r.sp + 2 ^ 16 - 1) })
dec_sp-Computes r v = ground arith

pub cases_30-EachIsSound : EachIsSound cases_30
unfolding cases_30
cases_30-EachIsSound =
    (λ m v. jump_relative-IsSound _ m v)
    ▸ load_sp-IsSound
    ▸ store_stepping-IsSound _ (dec_pair-Computes hl)
    ▸ on8 _ inc_sp-Computes
    ▸ modify_hl-IsSound inc8 (λ r x v. (inc8-Computes r x v).0)
    ▸ modify_hl-IsSound dec8 (λ r x v. (dec8-Computes r x v).0)
    ▸ store_imm-IsSound
    ▸ on4 _ scf-Computes
    ▸ (λ m v. jump_relative-IsSound _ m v)
    ▸ on8 _ (add_hl-Computes_at (λ r. r.sp))
    ▸ load_stepping-IsSound _ (dec_pair-Computes hl)
    ▸ on8 _ dec_sp-Computes
    ▸ on4 _ (inc_reg-Computes a)
    ▸ on4 _ (dec_reg-Computes a)
    ▸ load_reg-IsSound a
    ▸ on4 _ ccf-Computes
    ▸ done
