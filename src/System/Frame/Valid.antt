-- ===== src/System/Frame/Valid.antt =====
-- The ranges that `RunInstruction` of carbon-pc/src/gb/System.cpp keeps.
use open_carbon.Base.{
  bit_and, ℕ, ◌+◌, ◌/◌, ◌%◌, ◌^◌, ◌≤◌, ◌<◌, ◌≡◌, refl, arith, List, [], ◌∷◌, Option, none, some,
  All, Bool-cases, inl, inr, ◌==◌,
}
use open_carbon.State.{Machine, ApuCall, end_frame}
use open_carbon.Memory.{apu_call}
use open_carbon.Cpu.Step.{cpu_step, service_interrupts, update_ime}
use open_carbon.Cpu.Valid.{RegsIsValid}
use open_carbon.Cpu.Valid.Step.{cpu_step-RegsIsValid}
use open_carbon.Cpu.Interrupts.{Serviced, first_pending, sources, service_interrupts-Serviced}
use open_carbon.Video.Lcd.{lcd_step}
use open_carbon.Video.Lcd.Frame.{lcd_step-Aside}
use open_carbon.System.Frame.{Stereo, System, run_instruction, pump_samples, timer_tick}

update_ime-regs : (m : Machine) → (update_ime m).regs ≡ m.regs
unfolding update_ime
update_ime-regs m = ground arith

-- A vector that is an address.
abbrev IsVector : Option (ℕ × ℕ) → Type 0
IsVector none = Unit
IsVector (some (n, target)) = target < 2 ^ 16

first_pending-IsVector :
    (pending : ℕ) (table : List (ℕ × ℕ))
    → All (λ e. IsVector (some e)) table
    → IsVector (first_pending pending table)
first_pending-IsVector pending [] h = h
first_pending-IsVector pending ((n, target) ∷ rest) h =
    ground (arith, first_pending-IsVector pending rest h.1)

-- Whatever is pending, a service leads from valid registers to valid ones, in 0 or 20 ticks.
Serviced-RegsIsValid :
    (m : Machine) (after : Machine × ℕ) (source : Option (ℕ × ℕ))
    → RegsIsValid m.regs
    → IsVector source
    → Serviced m after source
    → RegsIsValid after.0.regs × (after.1 ≤ 20)
Serviced-RegsIsValid m (m', ticks) none v target s = ground arith
Serviced-RegsIsValid m (m', ticks) (some (n, target)) v bound s =
    elim (Bool-cases (m.ints.ime == 0)) [
      | inl shut ↦ let woken = s.0 (ground arith) in ground arith
      | inr on ↦ let taken = s.1 (ground arith) in ground arith
    ]

service_interrupts-RegsIsValid :
    (m : Machine)
    → RegsIsValid m.regs
    → RegsIsValid (service_interrupts m).0.regs × ((service_interrupts m).1 ≤ 20)
service_interrupts-RegsIsValid m v =
    let same = update_ime-regs m in
    Serviced-RegsIsValid (update_ime m) (service_interrupts m) _ (rw same v)
      (first_pending-IsVector (bit_and (update_ime m).ints.int_flags (update_ime m).ints.int_enable)
        sources (ground arith))
      (service_interrupts-Serviced m)

apu_call-regs : (m : Machine) (call : ApuCall) → (apu_call m call).regs ≡ m.regs
unfolding apu_call
apu_call-regs m call = refl

pump_samples-regs :
    (stereo : Stereo) (s : System)
    → ((pump_samples stereo s).machine.regs ≡ s.machine.regs)
      × ((pump_samples stereo s).machine.apu_time ≡ s.machine.apu_time)
unfolding pump_samples apu_call
pump_samples-regs stereo s = ground arith

-- From valid registers one round of the frame loop leads to valid registers, and the time that it
-- gives the timer, and in single speed the LCD, is at most 44 ticks.
pub run_instruction-RegsIsValid :
    (stereo : Stereo) (s : System)
    → RegsIsValid s.machine.regs
    → let s' = run_instruction stereo s in RegsIsValid s'.machine.regs × (s'.machine.apu_time ≤ 44)
unfolding run_instruction apu_call timer_tick
run_instruction-RegsIsValid stereo s v =
    let c = cpu_step s.machine in
    let m1 = record (c.0) { apu_time = c.1 } in
    let r = service_interrupts m1 in
    let m3 = record (r.0) { apu_time = c.1 + r.1 } in
    let t = m3.apu_time / 2 ^ (m3.double_speed % 2 ^ 5) in
    let m4 = apu_call (lcd_step t m3) (end_frame t) in
    let ran = cpu_step-RegsIsValid s.machine v in
    let served = service_interrupts-RegsIsValid m1 ran.0 in
    let aside = lcd_step-Aside t m3 in
    let pumped = pump_samples-regs stereo (record s { machine = m4 }) in
    rw (pumped.0, pumped.1, aside.regs, aside.apu_time) (served.0, omega (arith, ran, served.1))
