-- ===== src/Cpu/Cb.antt =====
-- `ExecuteCb` of carbon-pc/src/gb/Cpu.cpp: the opcodes behind the prefix CB.
use open_carbon.Base.{
  ℕ, ◌+◌, ◌-◌, ◌*◌, ◌/◌, ◌%◌, ◌^◌, ltb, ◌==◌, ◌||◌, Option, none, some, if◌then◌else◌, bit_and,
  bit_or, u8, bit,
}
use open_carbon.State.{Machine}
use open_carbon.Memory.{read8, write8}
use open_carbon.Cpu.Registers.{Reg, get_reg, set_reg, get_pair, hl, reg_ref}
use open_carbon.Cpu.Alu.{zero_flag}
use open_carbon.Cpu.Bus.{with_regs, tick, fetch8}

-- Groups 0-7, RLC RRC RL RR SLA SRA SWAP SRL: the result, and the bit that C gets.
unfoldable pub shift_result : ℕ → ℕ → ℕ → ℕ
shift_result group v c =
    if group == 0
    then u8 (v * 2 + v / 2 ^ 7)
    else if group == 1
    then u8 (v / 2 + v * 2 ^ 7)
    else if group == 2
    then u8 (v * 2 + c)
    else if group == 3
    then u8 (v / 2 + c * 2 ^ 7)
    else if group == 4
    then u8 (v * 2)
    else if group == 5
    then u8 (v / 2 + bit v 7 * 2 ^ 7)
    else if group == 6
    then u8 (v * 2 ^ 4 + v / 2 ^ 4)
    else u8 (v / 2)

unfoldable pub shift_carry : ℕ → ℕ → ℕ
shift_carry group v =
    if group == 0 || group == 2 || group == 4 then v / 2 ^ 7 else if group == 6 then 0 else v % 2

-- SLA leaves the low nibble of F alone.
unfoldable pub shift_flags : ℕ → ℕ → ℕ → ℕ → ℕ
shift_flags group f result carry =
    (if group == 4 then f % 16 else 0) + zero_flag result + (if carry == 0 then 0 else 0x10)

-- BIT
unfoldable pub test_flags : ℕ → ℕ → ℕ → ℕ
test_flags f v n = f % 2 ^ 5 + 0x20 + (if v / 2 ^ n % 2 == 0 then 0x80 else 0)

-- RES and SET
unfoldable pub reset_bit : ℕ → ℕ → ℕ
reset_bit v n = bit_and v (2 ^ 32 - 1 - 2 ^ n)

unfoldable pub set_bit : ℕ → ℕ → ℕ
set_bit v n = u8 (bit_or v (2 ^ n))

-- What the operation of `group` makes of the operand, and of F.
unfoldable pub cb_value : ℕ → ℕ → ℕ → ℕ
cb_value group v c =
    if ltb group 8
    then shift_result group v c
    else if ltb group 16
    then v
    else if ltb group 24
    then u8 (reset_bit v (group - 16))
    else set_bit v (group - 24)

unfoldable pub cb_flags : ℕ → ℕ → ℕ → ℕ
cb_flags group f v =
    if ltb group 8
    then shift_flags group f (shift_result group v (bit f 4)) (shift_carry group v)
    else if ltb group 16
    then test_flags f v (group - 8)
    else f

-- Only BIT stores nothing.
abbrev pub stores : ℕ → ℕ
stores group = if group / 8 == 1 then 0 else 1

unfoldable pub cb_on : Option Reg → ℕ → Machine → Machine
cb_on (some reg) group m =
    let v = get_reg m.regs reg in
    let r = record (m.regs) { f = cb_flags group m.regs.f v } in
    tick 8 (
      with_regs m
        (if stores group == 1 then set_reg r reg (cb_value group v (bit m.regs.f 4)) else r))
cb_on none group m =
    let v = read8 m (get_pair m.regs hl) in
    let m' = with_regs m (record (m.regs) { f = cb_flags group m.regs.f v }) in
    if stores group == 1
    then tick 16 (write8 m' (get_pair m.regs hl) (cb_value group v (bit m.regs.f 4)))
    else tick 12 m'

unfoldable pub execute_cb : Machine → Machine
execute_cb m = let (m', op) = fetch8 m in cb_on (reg_ref op) (op / 8) m'
