-- ===== src/Cpu/Execute/Cases.antt =====
-- The shapes that cases of the switch in `Execute` share, of carbon-pc/src/gb/Cpu.cpp.
use open_carbon.Base.{ℕ, ◌+◌, ◌-◌, ◌^◌, List, [], ◌∷◌, ◌==◌, if◌then◌else◌, u16}
use open_carbon.State.{Machine, Regs}
use open_carbon.Memory.{read8, write8}
use open_carbon.Cpu.Registers.{Reg, get_reg, set_reg, PairName, get_pair, set_pair, hl}
use open_carbon.Cpu.Alu.{inc8, dec8}
use open_carbon.Cpu.Bus.{with_regs, tick, fetch8, fetch16, push16, pop16}

-- `case op: body; return;`
abbrev pub Case : Type 0
Case = ℕ × (Machine → Machine)

unfoldable pub select : ℕ → List Case → (Machine → Machine) → Machine → Machine
select op [] other m = other m
select op ((k, body) ∷ cases) other m =
    let rest = select op cases other m in if op == k then body m else rest

-- A case that only computes on registers.
unfoldable pub on_regs : ℕ → (Regs → Regs) → Machine → Machine
on_regs n g m = tick n (with_regs m (g m.regs))

-- `SetBC(Fetch16())`
unfoldable pub load_pair : PairName → Machine → Machine
load_pair p m = let (m', v) = fetch16 m in tick 12 (with_regs m' (set_pair m'.regs p v))

-- `cpu.b = Fetch8()`
unfoldable pub load_reg : Reg → Machine → Machine
load_reg reg m = let (m', v) = fetch8 m in tick 8 (with_regs m' (set_reg m'.regs reg v))

-- `Write8(BC(), cpu.a)` and `cpu.a = Read8(BC())`
unfoldable pub store_a : PairName → Machine → Machine
store_a p m = tick 8 (write8 m (get_pair m.regs p) m.regs.a)

unfoldable pub load_a : PairName → Machine → Machine
load_a p m = tick 8 (with_regs m (record (m.regs) { a = read8 m (get_pair m.regs p) }))

-- `SetBC(static_cast<uint16_t>(BC() + 1))`
unfoldable pub inc_pair : PairName → Regs → Regs
inc_pair p r = set_pair r p (u16 (get_pair r p + 1))

unfoldable pub dec_pair : PairName → Regs → Regs
dec_pair p r = set_pair r p (u16 (get_pair r p + 2 ^ 16 - 1))

-- `Inc8(cpu.b)`: the reference is read, and assigned.
unfoldable pub inc_reg : Reg → Regs → Regs
inc_reg reg r = let (r', v) = inc8 r (get_reg r reg) in set_reg r' reg v

unfoldable pub dec_reg : Reg → Regs → Regs
dec_reg reg r = let (r', v) = dec8 r (get_reg r reg) in set_reg r' reg v

-- HL steps before the access at its old value: 0x22 and 0x32, 0x2a and 0x3a.
unfoldable pub store_stepping : (Regs → Regs) → Machine → Machine
store_stepping step m = tick 8 (write8 (with_regs m (step m.regs)) (get_pair m.regs hl) m.regs.a)

unfoldable pub load_stepping : (Regs → Regs) → Machine → Machine
load_stepping step m =
    let m' = with_regs m (step m.regs) in
    tick 8 (with_regs m' (record (m'.regs) { a = read8 m' (get_pair m.regs hl) }))

-- `uint8_t v = Read8(HL()); Inc8(v); Write8(HL(), v);`
unfoldable pub modify_hl : (Regs → ℕ → Regs × ℕ) → Machine → Machine
modify_hl change m =
    let (r, v) = change m.regs (read8 m (get_pair m.regs hl)) in
    tick 12 (write8 (with_regs m r) (get_pair r hl) v)

-- `Add8(Fetch8(), 0)` and its like
unfoldable pub fetch_operand : (Regs → ℕ → Regs) → Machine → Machine
fetch_operand g m = let (m', v) = fetch8 m in tick 8 (with_regs m' (g m'.regs v))

-- `Push16(BC())`
unfoldable pub push_value : (Regs → ℕ) → Machine → Machine
push_value g m = tick 16 (push16 (g m.regs) m)

-- `SetBC(Pop16())`
unfoldable pub pop_into : (Regs → ℕ → Regs) → Machine → Machine
pop_into g m = let (m', v) = pop16 m in tick 12 (with_regs m' (g m'.regs v))
