-- ===== src/Cpu/Step.antt =====
-- `CpuStep`, `ServiceInterrupts` and `CpuReset` of carbon-pc/src/gb/Cpu.cpp.
use open_carbon.Base.{ℕ, ◌+◌, Bool, true, false, not, ◌==◌, if◌then◌else◌, bit_and, bit}
use open_carbon.State.{Machine, Regs}
use open_carbon.Memory.{read8, write8}
use open_carbon.Cpu.Bus.{with_regs, tick, at_pc, push16}
use open_carbon.Cpu.Execute.{execute}

-- One instruction, with the ticks that it took. A halted CPU fetches and waits.
unfoldable pub cpu_step : Machine → Machine × ℕ
cpu_step m =
    let m' = with_regs m (record (m.regs) { ticks = 0 }) in
    let op = read8 m' m'.regs.pc in
    let done =
      if not (m'.regs.halted == 0) then tick 4 m' else execute op (at_pc m' (m'.regs.pc + 1)) in
    (done, done.regs.ticks)

unfoldable pub clear_flags : ℕ → Machine → Machine
clear_flags mask m = record m {
  ints = record (m.ints) { int_flags = bit_and m.ints.int_flags mask };
}

-- The shared tail of every taken interrupt.
unfoldable pub vector : ℕ → ℕ → Bool → Machine → Machine × ℕ
unfolding clear_flags
vector clear_mask target clear_before_push m =
    let m1 = if clear_before_push then clear_flags clear_mask m else m in
    let m2 = record m1 { ints = record (m1.ints) { ime_request = 0; ime = 0 } } in
    let m3 = at_pc (push16 m2.regs.pc m2) target in
    let m4 = if clear_before_push then m3 else clear_flags clear_mask m3 in
    (with_regs m4 (record (m4.regs) { halted = 0 }), 0x14)

-- `cpu.halted = 0; return 0;`
unfoldable pub wake : Machine → Machine × ℕ
wake m = (with_regs m (record (m.regs) { halted = 0 }), 0)

-- The request of EI, DI or RETI becomes effective once the delay is over.
unfoldable pub update_ime : Machine → Machine
update_ime m =
    if m.ints.ei_delay == 0
    then record m { ints = record (m.ints) { ime = m.ints.ime_request } }
    else record m { ints = record (m.ints) { ei_delay = 0 } }

-- One interrupt that is pending and enabled.
unfoldable pub take_interrupt : ℕ → ℕ → Bool → Machine → Machine × ℕ
unfolding wake vector
take_interrupt clear_mask target clear_before_push m =
    if m.ints.ime == 0 then wake m else vector clear_mask target clear_before_push m

-- VBlank also clears HALT before its own test of IME, which `Vector` would do as well.
unfoldable pub take_vblank : Machine → Machine × ℕ
unfolding vector
take_vblank m =
    let m' = with_regs m (record (m.regs) { halted = 0 }) in
    if m'.ints.ime == 0 then (m', 0) else vector 0xfe 0x40 true m'

unfoldable pub service_interrupts : Machine → Machine × ℕ
service_interrupts m0 =
    let m = update_ime m0 in
    let pending = bit_and m.ints.int_flags m.ints.int_enable in
    if bit pending 0 == 1
    then take_vblank m
    else if bit pending 4 == 1
    then take_interrupt 0xef 0x60 true m
    else if bit pending 1 == 1
    then take_interrupt 0xfd 0x48 false m
    else if bit pending 3 == 1
    then take_interrupt 0xf7 0x58 false m
    else if bit pending 2 == 1
    then take_interrupt 0xfb 0x50 false m
    else (m, 0)

-- The register state after the boot ROM, and three writes to the LCD registers.
unfoldable pub boot_regs : Regs → Regs
boot_regs r = record r {
  a = 0x11;
  c = 0x00;
  f = 0x80;
  b = 0x00;
  e = 0x56;
  d = 0xff;
  l = 0x0d;
  h = 0x00;
  sp = 0xfffe;
  pc = 0x0100;
}

unfoldable pub cpu_reset : Machine → Machine
unfolding boot_regs
cpu_reset m =
    write8 (write8 (write8 (with_regs m (boot_regs m.regs)) 0xff40 0x91) 0xff41 0x81) 0xff40 0x91
