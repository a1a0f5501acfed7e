-- ===== src/Cpu/Execute/Low.antt =====
-- The cases 0x00-0x3f of the switch in `Execute` of carbon-pc/src/gb/Cpu.cpp.
use open_carbon.Base.{◌+◌, ◌-◌, ◌^◌, List, [], ◌∷◌, not, u16}
use open_carbon.State.{Machine}
use open_carbon.Memory.{read8, read16, write8, write16}
use open_carbon.Cpu.Registers.{bc, de, hl, b, c, d, e, h, l, a, get_pair, flag_z, flag_c}
use open_carbon.Cpu.Alu.{inc8, dec8, add_hl, sign_extend, daa, rlca, rrca, rla, rra, cpl, scf, ccf}
use open_carbon.Cpu.Bus.{with_regs, tick, at_pc, fetch16, jump_relative, stop, illegal}
use open_carbon.Cpu.Execute.Cases.{
  Case, on_regs, load_pair, load_reg, store_a, load_a, inc_pair, dec_pair, inc_reg, dec_reg,
  store_stepping, load_stepping, modify_hl,
}

-- LD (nn),SP
unfoldable pub store_sp : Machine → Machine
store_sp m =
    let m' = write16 m (read16 m m.regs.pc) m.regs.sp in tick 20 (at_pc m' (m'.regs.pc + 2))

unfoldable pub cases_00 : List Case
cases_00 =
    (0x00, illegal)
    ∷ (0x01, load_pair bc)
    ∷ (0x02, store_a bc)
    ∷ (0x03, on_regs 8 (inc_pair bc))
    ∷ (0x04, on_regs 4 (inc_reg b))
    ∷ (0x05, on_regs 4 (dec_reg b))
    ∷ (0x06, load_reg b)
    ∷ (0x07, on_regs 4 rlca)
    ∷ (0x08, store_sp)
    ∷ (0x09, on_regs 8 (λ r. add_hl r (get_pair r bc)))
    ∷ (0x0a, load_a bc)
    ∷ (0x0b, on_regs 8 (dec_pair bc))
    ∷ (0x0c, on_regs 4 (inc_reg c))
    ∷ (0x0d, on_regs 4 (dec_reg c))
    ∷ (0x0e, load_reg c)
    ∷ (0x0f, on_regs 4 rrca)
    ∷ []

-- JR e
unfoldable pub jump_by : Machine → Machine
jump_by m = tick 12 (at_pc m (m.regs.pc + sign_extend (read8 m m.regs.pc) + 1))

unfoldable pub cases_10 : List Case
cases_10 =
    (0x10, stop)
    ∷ (0x11, load_pair de)
    ∷ (0x12, store_a de)
    ∷ (0x13, on_regs 8 (inc_pair de))
    ∷ (0x14, on_regs 4 (inc_reg d))
    ∷ (0x15, on_regs 4 (dec_reg d))
    ∷ (0x16, load_reg d)
    ∷ (0x17, on_regs 4 rla)
    ∷ (0x18, jump_by)
    ∷ (0x19, on_regs 8 (λ r. add_hl r (get_pair r de)))
    ∷ (0x1a, load_a de)
    ∷ (0x1b, on_regs 8 (dec_pair de))
    ∷ (0x1c, on_regs 4 (inc_reg e))
    ∷ (0x1d, on_regs 4 (dec_reg e))
    ∷ (0x1e, load_reg e)
    ∷ (0x1f, on_regs 4 rra)
    ∷ []

unfoldable pub cases_20 : List Case
cases_20 =
    (0x20, λ m. jump_relative (not (flag_z m.regs)) m)
    ∷ (0x21, load_pair hl)
    ∷ (0x22, store_stepping (inc_pair hl))
    ∷ (0x23, on_regs 8 (inc_pair hl))
    ∷ (0x24, on_regs 4 (inc_reg h))
    ∷ (0x25, on_regs 4 (dec_reg h))
    ∷ (0x26, load_reg h)
    ∷ (0x27, on_regs 4 daa)
    ∷ (0x28, λ m. jump_relative (flag_z m.regs) m)
    ∷ (0x29, on_regs 8 (λ r. add_hl r (get_pair r hl)))
    ∷ (0x2a, load_stepping (inc_pair hl))
    ∷ (0x2b, on_regs 8 (dec_pair hl))
    ∷ (0x2c, on_regs 4 (inc_reg l))
    ∷ (0x2d, on_regs 4 (dec_reg l))
    ∷ (0x2e, load_reg l)
    ∷ (0x2f, on_regs 4 cpl)
    ∷ []

-- LD SP,nn
unfoldable pub load_sp : Machine → Machine
load_sp m = let (m', v) = fetch16 m in tick 12 (with_regs m' (record (m'.regs) { sp = v }))

-- LD (HL),n
unfoldable pub store_imm : Machine → Machine
store_imm m =
    let m' = write8 m (get_pair m.regs hl) (read8 m m.regs.pc) in
    tick 12 (at_pc m' (m'.regs.pc + 1))

unfoldable pub cases_30 : List Case
cases_30 =
    (0x30, λ m. jump_relative (not (flag_c m.regs)) m)
    ∷ (0x31, load_sp)
    ∷ (0x32, store_stepping (dec_pair hl))
    ∷ (0x33, on_regs 8 (λ r. record r { sp = u16 (r.sp + 1) }))
    ∷ (0x34, modify_hl inc8)
    ∷ (0x35, modify_hl dec8)
    ∷ (0x36, store_imm)
    ∷ (0x37, on_regs 4 scf)
    ∷ (0x38, λ m. jump_relative (flag_c m.regs) m)
    ∷ (0x39, on_regs 8 (λ r. add_hl r r.sp))
    ∷ (0x3a, load_stepping (dec_pair hl))
    ∷ (0x3b, on_regs 8 (λ r. record r { sp = u16 (r.sp + 2 ^ 16 - 1) }))
    ∷ (0x3c, on_regs 4 (inc_reg a))
    ∷ (0x3d, on_regs 4 (dec_reg a))
    ∷ (0x3e, load_reg a)
    ∷ (0x3f, on_regs 4 ccf)
    ∷ []
