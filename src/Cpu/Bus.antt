-- ===== src/Cpu/Bus.antt =====
-- The instructions of carbon-pc/src/gb/Cpu.cpp that read or write memory: fetches, the stack,
-- jumps, calls, returns and STOP.
use open_carbon.Base.{ℕ, ◌+◌, ◌-◌, ◌^◌, Bool, ◌==◌, if◌then◌else◌, u16, u32, bit}
use open_carbon.State.{Machine, Regs}
use open_carbon.Memory.{read8, read16, write8, write16}
use open_carbon.Cpu.Alu.{sign_extend}

abbrev pub with_regs : Machine → Regs → Machine
with_regs m r = record m { regs = r }

abbrev pub at_pc : Machine → ℕ → Machine
at_pc m pc = record m { regs = record (m.regs) { pc = u16 pc } }

-- `cpu.ticks += n`
abbrev pub tick : ℕ → Machine → Machine
tick n m = record m { regs = record (m.regs) { ticks = m.regs.ticks + n } }

unfoldable pub fetch8 : Machine → Machine × ℕ
fetch8 m = (at_pc m (m.regs.pc + 1), read8 m m.regs.pc)

unfoldable pub fetch16 : Machine → Machine × ℕ
fetch16 m = (at_pc m (m.regs.pc + 2), read16 m m.regs.pc)

-- The address of the write is `sp - 2` in 32 bits.
unfoldable pub push16 : ℕ → Machine → Machine
push16 value m =
    let sp = m.regs.sp in
    write16 (with_regs m (record (m.regs) { sp = u16 (sp + 2 ^ 16 - 2) })) (u32 (sp + 2 ^ 32 - 2))
      value

unfoldable pub pop16 : Machine → Machine × ℕ
pop16 m = (with_regs m (record (m.regs) { sp = u16 (m.regs.sp + 2) }), read16 m m.regs.sp)

unfoldable pub jump_relative : Bool → Machine → Machine
jump_relative taken m =
    let e = sign_extend (read8 m m.regs.pc) in
    if taken then tick 12 (at_pc m (u16 (m.regs.pc + e) + 1)) else tick 8 (at_pc m (m.regs.pc + 1))

unfoldable pub jump_absolute : Bool → Machine → Machine
jump_absolute taken m =
    let target = read16 m m.regs.pc in
    if taken then tick 16 (at_pc m target) else tick 12 (at_pc m (m.regs.pc + 2))

unfoldable pub call_absolute : Bool → Machine → Machine
call_absolute taken m =
    let target = read16 m m.regs.pc in
    let m' = at_pc m (m.regs.pc + 2) in
    if taken then tick 24 (at_pc (push16 (m.regs.pc + 2) m') target) else tick 12 m'

unfoldable pub return_now : ℕ → Machine → Machine
return_now n m = let (m', target) = pop16 m in tick n (at_pc m' target)

unfoldable pub return_if : Bool → Machine → Machine
return_if taken m = if taken then return_now 20 m else tick 8 m

unfoldable pub restart : ℕ → Machine → Machine
restart vector m = tick 16 (at_pc (push16 m.regs.pc m) vector)

-- The switch of speed in `Stop`: FF4D is read, and written back through the memory map.
unfoldable pub switch_speed : Machine → Machine
switch_speed m =
    let key = read8 m 0xff4d in
    let m' = record m { key1 = key } in
    if bit key 0 == 1
    then write8 (record m' { double_speed = if m.double_speed == 0 then 1 else 0 }) 0xff4d
        (if m.double_speed == 0 then 0x80 else 0)
    else m'

unfoldable pub stop : Machine → Machine
stop m =
    let m' = if m.is_cgb == 0 then m else switch_speed m in
    if m'.double_speed == 0 then tick 4 (at_pc m' (m'.regs.pc + 1)) else m'

unfoldable pub illegal : Machine → Machine
illegal m = tick 4 m
