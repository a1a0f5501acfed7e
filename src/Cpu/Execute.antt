-- ===== src/Cpu/Execute.antt =====
-- `Execute` of carbon-pc/src/gb/Cpu.cpp: the two blocks that decode their operands, and the switch.
-- The cases of the switch are tables, in the order of the opcodes.
pub mod Cases
pub mod Low
pub mod High
use open_carbon.Base.{
  ℕ, ◌+◌, ◌/◌, ◌%◌, Bool, ◌==◌, leb, ltb, ◌&&◌, if◌then◌else◌, List, [], ◌∷◌, ◌++◌, Option, none,
  some,
}
use open_carbon.State.{Machine, Regs}
use open_carbon.Memory.{read8, write8}
use open_carbon.Cpu.Registers.{Reg, get_reg, set_reg, reg_ref, get_pair, hl, carry_in}
use open_carbon.Cpu.Alu.{add8, sub8, and8, xor8, or8, cp8}
use open_carbon.Cpu.Bus.{with_regs, tick, illegal}
use open_carbon.Cpu.Execute.Cases.{Case, select}
use open_carbon.Cpu.Execute.Low.{cases_00, cases_10, cases_20, cases_30}
use open_carbon.Cpu.Execute.High.{cases_c0, cases_d0, cases_e0, cases_f0}

-- LD r,r' / LD r,(HL) / LD (HL),r. Both operands are (HL) at 0x76 only, which is HALT.
unfoldable pub load_between : Option Reg → Option Reg → Machine → Machine
load_between (some dst) (some src) m =
    tick 4 (with_regs m (set_reg m.regs dst (get_reg m.regs src)))
load_between (some dst) none m =
    tick 8 (with_regs m (set_reg m.regs dst (read8 m (get_pair m.regs hl))))
load_between none (some src) m = tick 8 (write8 m (get_pair m.regs hl) (get_reg m.regs src))
load_between none none m = m

unfoldable pub halt : Machine → Machine
halt m = tick 4 (with_regs m (record (m.regs) { halted = 1 }))

-- Opcodes 0x40-0x7f
unfoldable pub execute_load : ℕ → Machine → Machine
execute_load op m = if op == 0x76 then halt m else load_between (reg_ref (op / 8)) (reg_ref op) m

-- `op >> 3 & 7`
unfoldable pub arithmetic : ℕ → Regs → ℕ → Regs
arithmetic k r value =
    if k == 0
    then add8 r value 0
    else if k == 1
    then add8 r value (carry_in r)
    else if k == 2
    then sub8 r value 0
    else if k == 3
    then sub8 r value (carry_in r)
    else if k == 4
    then and8 r value
    else if k == 5
    then xor8 r value
    else if k == 6
    then or8 r value
    else cp8 r value

unfoldable pub arithmetic_on : Option Reg → ℕ → Machine → Machine
arithmetic_on (some src) k m = tick 4 (with_regs m (arithmetic k m.regs (get_reg m.regs src)))
arithmetic_on none k m = tick 8 (with_regs m (arithmetic k m.regs (read8 m (get_pair m.regs hl))))

-- Opcodes 0x80-0xbf
unfoldable pub execute_arithmetic : ℕ → Machine → Machine
execute_arithmetic op m = arithmetic_on (reg_ref op) (op / 8 % 8) m

-- The cases of the switch that are written out; all other opcodes share `Illegal`.
unfoldable pub switch_cases : List Case
switch_cases =
    cases_00 ++ cases_10 ++ cases_20 ++ cases_30 ++ cases_c0 ++ cases_d0 ++ cases_e0 ++ cases_f0

unfoldable pub execute : ℕ → Machine → Machine
execute op m =
    if leb 0x40 op && ltb op 0x80
    then execute_load op m
    else if leb 0x80 op && ltb op 0xc0
    then execute_arithmetic op m
    else select op switch_cases illegal m
