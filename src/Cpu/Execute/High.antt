-- ===== src/Cpu/Execute/High.antt =====
-- The cases 0xc0-0xff of the switch in `Execute` of carbon-pc/src/gb/Cpu.cpp.
use open_carbon.Base.{ℕ, ◌+◌, ◌/◌, ◌*◌, ◌%◌, ◌^◌, List, [], ◌∷◌, not, u8}
use open_carbon.State.{Machine, Regs}
use open_carbon.Memory.{read8, read16, write8}
use open_carbon.Cpu.Registers.{bc, de, hl, get_pair, set_pair, pair, flag_z, flag_c, carry_in}
use open_carbon.Cpu.Alu.{add8, sub8, and8, xor8, or8, cp8, sp_plus_offset}
use open_carbon.Cpu.Bus.{
  with_regs, tick, at_pc, fetch8, push16, jump_absolute, call_absolute, return_now, return_if,
  restart,
}
use open_carbon.Cpu.Cb.{execute_cb}
use open_carbon.Cpu.Execute.Cases.{Case, on_regs, fetch_operand, push_value, pop_into}

-- JP nn
unfoldable pub jump_to : Machine → Machine
jump_to m = tick 16 (at_pc m (read16 m m.regs.pc))

-- CALL nn: PC is left alone until the return address is on the stack.
unfoldable pub call : Machine → Machine
call m = tick 24 (at_pc (push16 (m.regs.pc + 2) m) (read16 m m.regs.pc))

unfoldable pub cases_c0 : List Case
cases_c0 =
    (0xc0, λ m. return_if (not (flag_z m.regs)) m)
    ∷ (0xc1, pop_into (λ r v. set_pair r bc v))
    ∷ (0xc2, λ m. jump_absolute (not (flag_z m.regs)) m)
    ∷ (0xc3, jump_to)
    ∷ (0xc4, λ m. call_absolute (not (flag_z m.regs)) m)
    ∷ (0xc5, push_value (λ r. get_pair r bc))
    ∷ (0xc6, fetch_operand (λ r v. add8 r v 0))
    ∷ (0xc7, restart 0x00)
    ∷ (0xc8, λ m. return_if (flag_z m.regs) m)
    ∷ (0xc9, return_now 16)
    ∷ (0xca, λ m. jump_absolute (flag_z m.regs) m)
    ∷ (0xcb, execute_cb)
    ∷ (0xcc, λ m. call_absolute (flag_z m.regs) m)
    ∷ (0xcd, call)
    ∷ (0xce, fetch_operand (λ r v. add8 r v (carry_in r)))
    ∷ (0xcf, restart 0x08)
    ∷ []

-- RETI
unfoldable pub return_enabling : Machine → Machine
return_enabling m = return_now 16 (record m { ints = record (m.ints) { ime = 1; ime_request = 1 } })

unfoldable pub cases_d0 : List Case
cases_d0 =
    (0xd0, λ m. return_if (not (flag_c m.regs)) m)
    ∷ (0xd1, pop_into (λ r v. set_pair r de v))
    ∷ (0xd2, λ m. jump_absolute (not (flag_c m.regs)) m)
    ∷ (0xd4, λ m. call_absolute (not (flag_c m.regs)) m)
    ∷ (0xd5, push_value (λ r. get_pair r de))
    ∷ (0xd6, fetch_operand (λ r v. sub8 r v 0))
    ∷ (0xd7, restart 0x10)
    ∷ (0xd8, λ m. return_if (flag_c m.regs) m)
    ∷ (0xd9, return_enabling)
    ∷ (0xda, λ m. jump_absolute (flag_c m.regs) m)
    ∷ (0xdc, λ m. call_absolute (flag_c m.regs) m)
    ∷ (0xde, fetch_operand (λ r v. sub8 r v (carry_in r)))
    ∷ (0xdf, restart 0x18)
    ∷ []

-- LDH (n),A and LDH A,(n)
unfoldable pub store_high : Machine → Machine
store_high m =
    let m' = write8 m (0xff00 + read8 m m.regs.pc) m.regs.a in tick 12 (at_pc m' (m'.regs.pc + 1))

unfoldable pub load_high : Machine → Machine
load_high m =
    let m' = with_regs m (record (m.regs) { a = read8 m (0xff00 + read8 m m.regs.pc) }) in
    tick 12 (at_pc m' (m'.regs.pc + 1))

-- LD (nn),A and LD A,(nn)
unfoldable pub store_absolute : Machine → Machine
store_absolute m =
    let m' = write8 m (read16 m m.regs.pc) m.regs.a in tick 16 (at_pc m' (m'.regs.pc + 2))

unfoldable pub load_absolute : Machine → Machine
load_absolute m =
    let m' = with_regs m (record (m.regs) { a = read8 m (read16 m m.regs.pc) }) in
    tick 16 (at_pc m' (m'.regs.pc + 2))

-- ADD SP,e and LD HL,SP+e
unfoldable pub add_sp : Machine → Machine
add_sp m =
    let (m', v) = fetch8 m in
    let (r, sum) = sp_plus_offset m'.regs v in tick 16 (with_regs m' (record r { sp = sum }))

unfoldable pub load_hl_sp : Machine → Machine
load_hl_sp m =
    let (m', v) = fetch8 m in
    let (r, sum) = sp_plus_offset m'.regs v in tick 12 (with_regs m' (set_pair r hl sum))

unfoldable pub cases_e0 : List Case
cases_e0 =
    (0xe0, store_high)
    ∷ (0xe1, pop_into (λ r v. set_pair r hl v))
    ∷ (0xe2, λ m. tick 8 (write8 m (0xff00 + m.regs.c) m.regs.a))
    ∷ (0xe5, push_value (λ r. get_pair r hl))
    ∷ (0xe6, fetch_operand and8)
    ∷ (0xe7, restart 0x20)
    ∷ (0xe8, add_sp)
    ∷ (0xe9, on_regs 4 (λ r. record r { pc = get_pair r hl }))
    ∷ (0xea, store_absolute)
    ∷ (0xee, fetch_operand xor8)
    ∷ (0xef, restart 0x28)
    ∷ []

-- POP AF: the low nibble of F cannot be set.
unfoldable pub set_af : Regs → ℕ → Regs
set_af r v = record r { f = v % 2 ^ 8 / 16 * 16; a = u8 (v / 2 ^ 8) }

-- DI and EI: the request becomes effective one instruction later.
unfoldable pub request_ime : ℕ → Machine → Machine
request_ime value m =
    tick 4 (record m { ints = record (m.ints) { ime_request = value; ei_delay = 1 } })

unfoldable pub restart_38 : Machine → Machine
restart_38 m = restart 0x38 (with_regs m (record (m.regs) { rst38_marker = 0 }))

unfoldable pub cases_f0 : List Case
cases_f0 =
    (0xf0, load_high)
    ∷ (0xf1, pop_into set_af)
    ∷ (0xf2, λ m. tick 8 (with_regs m (record (m.regs) { a = read8 m (0xff00 + m.regs.c) })))
    ∷ (0xf3, request_ime 0)
    ∷ (0xf5, push_value (λ r. pair r.a r.f))
    ∷ (0xf6, fetch_operand or8)
    ∷ (0xf7, restart 0x30)
    ∷ (0xf8, load_hl_sp)
    ∷ (0xf9, on_regs 8 (λ r. record r { sp = get_pair r hl }))
    ∷ (0xfa, load_absolute)
    ∷ (0xfb, request_ime 1)
    ∷ (0xfe, fetch_operand cp8)
    ∷ (0xff, restart_38)
    ∷ []
