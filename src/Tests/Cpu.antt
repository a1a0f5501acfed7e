-- ===== src/Tests/Cpu.antt =====
-- The CPU's theorems at concrete machines, and runs of its instructions.
use open_carbon.Base.{◌+◌, ◌-◌, ◌%◌, ◌≤◌, ◌≡◌, refl, arith, bit, bit_and, leb, ltb, if◌then◌else◌}
use open_carbon.Cpu.Alu.{add8, sub8, daa}
use open_carbon.Cpu.Alu.Decimal.{bcd, daa-add8, daa-sub8}
use open_carbon.Cpu.Step.{cpu_step, service_interrupts, update_ime}
use open_carbon.Cpu.Valid.{RegsIsValid}
use open_carbon.Cpu.Valid.Step.{cpu_step-RegsIsValid}
use open_carbon.Cpu.Interrupts.{sources, first_pending, Serviced, service_interrupts-Serviced}
use open_carbon.State.{Machine}
use open_carbon.Tests.Data.{adding, adding-RegsIsValid}

cpu_step-RegsIsValid_example :
    RegsIsValid (cpu_step adding).0.regs
    × ((cpu_step adding).1 ≤ 24)
    × ((cpu_step adding).1 % 4 ≡ 0)
cpu_step-RegsIsValid_example = cpu_step-RegsIsValid adding adding-RegsIsValid

-- 99 + 99 + 1 in decimal
daa-add8_example :
    ((daa (add8 (record (adding.regs) { a = 0x99 }) (bcd 99) 1)).a ≡ bcd ((99 + 99 + 1) % 100))
    × (bit (daa (add8 (record (adding.regs) { a = 0x99 }) (bcd 99) 1)).f 4
        ≡ (if leb 100 (99 + 99 + 1) then 1 else 0))
daa-add8_example =
    daa-add8 (record (adding.regs) { a = 0x99 }) 99 99 1 (omega arith) (omega arith) (omega arith)
      refl

-- 10 - 25 in decimal
daa-sub8_example :
    ((daa (sub8 (record (adding.regs) { a = 0x10 }) (bcd 25) 0)).a
      ≡ bcd ((10 + 200 - 25 - 0) % 100))
    × (bit (daa (sub8 (record (adding.regs) { a = 0x10 }) (bcd 25) 0)).f 4
        ≡ (if ltb 10 (25 + 0) then 1 else 0))
daa-sub8_example =
    daa-sub8 (record (adding.regs) { a = 0x10 }) 10 25 0 (omega arith) (omega arith) (omega arith)
      refl

-- STAT and Timer are pending and enabled: STAT is served.
abbrev pending : Machine
pending = record adding {
  ints = record (adding.ints) { int_flags = 6; int_enable = 0x1f; ime_request = 1 };
}

service_interrupts-Serviced_example : Serviced (update_ime pending) (service_interrupts pending) (
    first_pending
      (bit_and (update_ime pending).ints.int_flags (update_ime pending).ints.int_enable)
      sources)
service_interrupts-Serviced_example = service_interrupts-Serviced pending
