-- ===== src/Cpu/Valid/High.antt =====
-- The cases 0xc0-0xff of `Execute` of carbon-pc/src/gb/Cpu.cpp keep the registers' ranges.
use open_carbon.Base.{ℕ, ◌+◌, ◌^◌, ◌<◌, arith, u16}
use open_carbon.State.{Regs}
use open_carbon.Memory.{read8, read16, write8}
use open_carbon.Cpu.Registers.{bc, de, hl, get_pair}
use open_carbon.Cpu.Alu.{sp_plus_offset, and8, xor8, or8, cp8}
use open_carbon.Cpu.Valid.Low.{EachIsSound, done, ◌▸◌, on4, on8}
use open_carbon.Cpu.Bus.{with_regs, tick, fetch8}
use open_carbon.Cpu.Execute.High.{
  jump_to, call, return_enabling, store_high, load_high, store_absolute, load_absolute, add_sp,
  load_hl_sp, set_af, request_ime, restart_38, cases_c0, cases_d0, cases_e0, cases_f0,
}
use open_carbon.Cpu.Valid.{RegsIsValid, Computes}
use open_carbon.Cpu.Valid.Alu.{
  get_pair-lt, set_pair-Computes, sp_plus_offset-Computes, add8-Computes, sub8-Computes,
  cp8-Computes, and8-Computes, xor8-Computes, or8-Computes,
}
use open_carbon.Cpu.Valid.Cases.{
  IsSound, read8-lt, regs-write8, regs-push16, fetch_operand-IsSound, push_value-IsSound,
  pop_into-IsSound, jump_absolute-IsSound, call_absolute-IsSound, return_now-IsSound,
  return_if-IsSound, restart-IsSound, execute_cb-IsSound,
}

jump_to-IsSound : IsSound jump_to
unfolding jump_to
jump_to-IsSound m v = ground arith

call-IsSound : IsSound call
unfolding call
call-IsSound m v = rw (regs-push16 (m.regs.pc + 2) m) (ground arith)

pub cases_c0-EachIsSound : EachIsSound cases_c0
unfolding cases_c0
cases_c0-EachIsSound =
    (λ m v. return_if-IsSound _ m v)
    ▸ pop_into-IsSound _ (λ r x v hx. set_pair-Computes r bc x v)
    ▸ (λ m v. jump_absolute-IsSound _ m v)
    ▸ jump_to-IsSound
    ▸ (λ m v. call_absolute-IsSound _ m v)
    ▸ push_value-IsSound _
    ▸ fetch_operand-IsSound _ (λ r x v hx. add8-Computes r x 0 v)
    ▸ restart-IsSound 0x00
    ▸ (λ m v. return_if-IsSound _ m v)
    ▸ return_now-IsSound 16 (omega arith) (omega arith)
    ▸ (λ m v. jump_absolute-IsSound _ m v)
    ▸ execute_cb-IsSound
    ▸ (λ m v. call_absolute-IsSound _ m v)
    ▸ call-IsSound
    ▸ fetch_operand-IsSound _ (λ r x v hx. add8-Computes r x _ v)
    ▸ restart-IsSound 0x08
    ▸ done

return_enabling-IsSound : IsSound return_enabling
unfolding return_enabling
return_enabling-IsSound m v = return_now-IsSound 16 (omega arith) (omega arith) _ v

pub cases_d0-EachIsSound : EachIsSound cases_d0
unfolding cases_d0
cases_d0-EachIsSound =
    (λ m v. return_if-IsSound _ m v)
    ▸ pop_into-IsSound _ (λ r x v hx. set_pair-Computes r de x v)
    ▸ (λ m v. jump_absolute-IsSound _ m v)
    ▸ (λ m v. call_absolute-IsSound _ m v)
    ▸ push_value-IsSound _
    ▸ fetch_operand-IsSound _ (λ r x v hx. sub8-Computes r x 0 v)
    ▸ restart-IsSound 0x10
    ▸ (λ m v. return_if-IsSound _ m v)
    ▸ return_enabling-IsSound
    ▸ (λ m v. jump_absolute-IsSound _ m v)
    ▸ (λ m v. call_absolute-IsSound _ m v)
    ▸ fetch_operand-IsSound _ (λ r x v hx. sub8-Computes r x _ v)
    ▸ restart-IsSound 0x18
    ▸ done

store_high-IsSound : IsSound store_high
unfolding store_high
store_high-IsSound m v = rw regs-write8 (ground arith)

load_high-IsSound : IsSound load_high
unfolding load_high
load_high-IsSound m v = ground (arith, read8-lt m (0xff00 + read8 m m.regs.pc))

store_absolute-IsSound : IsSound store_absolute
unfolding store_absolute
store_absolute-IsSound m v = rw regs-write8 (ground arith)

load_absolute-IsSound : IsSound load_absolute
unfolding load_absolute
load_absolute-IsSound m v = ground (arith, read8-lt m (read16 m m.regs.pc))

add_sp-IsSound : IsSound add_sp
unfolding add_sp fetch8
add_sp-IsSound m v =
    let r = record (m.regs) { pc = u16 (m.regs.pc + 1) } in
    ground (arith, sp_plus_offset-Computes r (read8 m m.regs.pc) (ground arith))

load_hl_sp-IsSound : IsSound load_hl_sp
unfolding load_hl_sp fetch8
load_hl_sp-IsSound m v =
    let r = record (m.regs) { pc = u16 (m.regs.pc + 1) } in
    let moved = sp_plus_offset-Computes r (read8 m m.regs.pc) (ground arith) in
    ground
      (arith, moved, set_pair-Computes _ hl (sp_plus_offset r (read8 m m.regs.pc)).1 moved.0.valid)

store_c-IsSound : IsSound (λ m. tick 8 (write8 m (0xff00 + m.regs.c) m.regs.a))
store_c-IsSound m v = rw regs-write8 (ground arith)

to_hl-Computes : (r : Regs) → RegsIsValid r → Computes r (record r { pc = get_pair r hl })
to_hl-Computes r v = ground (arith, get_pair-lt r hl)

pub cases_e0-EachIsSound : EachIsSound cases_e0
unfolding cases_e0
cases_e0-EachIsSound =
    store_high-IsSound
    ▸ pop_into-IsSound _ (λ r x v hx. set_pair-Computes r hl x v)
    ▸ store_c-IsSound
    ▸ push_value-IsSound _
    ▸ fetch_operand-IsSound and8 (λ r x v hx. and8-Computes r x v)
    ▸ restart-IsSound 0x20
    ▸ add_sp-IsSound
    ▸ on4 _ to_hl-Computes
    ▸ store_absolute-IsSound
    ▸ fetch_operand-IsSound xor8 xor8-Computes
    ▸ restart-IsSound 0x28
    ▸ done

set_af-Computes : (r : Regs) (x : ℕ) → RegsIsValid r → x < 2 ^ 16 → Computes r (set_af r x)
unfolding set_af
set_af-Computes r x v hx = ground arith

load_c-IsSound :
    IsSound (λ m. tick 8 (with_regs m (record (m.regs) { a = read8 m (0xff00 + m.regs.c) })))
load_c-IsSound m v = ground (arith, read8-lt m (0xff00 + m.regs.c))

request_ime-IsSound : (value : ℕ) → IsSound (request_ime value)
unfolding request_ime
request_ime-IsSound value m v = ground arith

sp_to_hl-Computes : (r : Regs) → RegsIsValid r → Computes r (record r { sp = get_pair r hl })
sp_to_hl-Computes r v = ground (arith, get_pair-lt r hl)

restart_38-IsSound : IsSound restart_38
unfolding restart_38
restart_38-IsSound m v =
    let m' = with_regs m (record (m.regs) { rst38_marker = 0 }) in
    ground (arith, restart-IsSound 0x38 m' (ground arith))

pub cases_f0-EachIsSound : EachIsSound cases_f0
unfolding cases_f0
cases_f0-EachIsSound =
    load_high-IsSound
    ▸ pop_into-IsSound set_af set_af-Computes
    ▸ load_c-IsSound
    ▸ request_ime-IsSound 0
    ▸ push_value-IsSound _
    ▸ fetch_operand-IsSound or8 or8-Computes
    ▸ restart-IsSound 0x30
    ▸ load_hl_sp-IsSound
    ▸ on8 _ sp_to_hl-Computes
    ▸ load_absolute-IsSound
    ▸ request_ime-IsSound 1
    ▸ fetch_operand-IsSound cp8 (λ r x v hx. cp8-Computes r x v)
    ▸ restart_38-IsSound
    ▸ done
