-- ===== src/Cpu/Valid/Step.antt =====
-- `Execute` and `CpuStep` of carbon-pc/src/gb/Cpu.cpp: every opcode keeps the registers' ranges and
-- takes a whole number of M-cycles.
use open_carbon.Base.{
  ℕ, ◌+◌, ◌/◌, ◌%◌, ◌≤◌, ◌≡◌, arith, Option, some, none, List, ◌++◌, ◌==◌, Bool-cases, inl, inr,
}
use open_carbon.State.{Machine}
use open_carbon.Memory.{read8}
use open_carbon.Cpu.Registers.{Reg, reg_ref, get_reg, hl, get_pair}
use open_carbon.Cpu.Bus.{with_regs, at_pc, illegal}
use open_carbon.Cpu.Execute.{
  load_between, halt, execute_load, arithmetic_on, execute_arithmetic, switch_cases, execute,
}
use open_carbon.Cpu.Execute.Cases.{Case, select}
use open_carbon.Cpu.Step.{cpu_step}
use open_carbon.Cpu.Valid.Low.{
  EachIsSound, done, ◌▸◌, cases_00-EachIsSound, cases_10-EachIsSound, cases_20-EachIsSound,
  cases_30-EachIsSound,
}
use open_carbon.Cpu.Valid.High.{
  cases_c0-EachIsSound, cases_d0-EachIsSound, cases_e0-EachIsSound, cases_f0-EachIsSound,
}
use open_carbon.Cpu.Valid.{RegsIsValid}
use open_carbon.Cpu.Valid.Alu.{get_reg-lt, set_reg-Computes, arithmetic-Computes}
use open_carbon.Cpu.Valid.Cases.{IsSound, read8-lt, regs-write8, illegal-IsSound}

load_between-IsSound : (dst src : Option Reg) → IsSound (load_between dst src)
unfolding load_between
load_between-IsSound (some dst) (some src) m v =
    ground (arith, set_reg-Computes m.regs dst (get_reg m.regs src) v (get_reg-lt m.regs src v))
load_between-IsSound (some dst) none m v =
    let x = read8 m (get_pair m.regs hl) in
    ground (arith, set_reg-Computes m.regs dst x v (read8-lt m (get_pair m.regs hl)))
load_between-IsSound none (some src) m v = rw regs-write8 (ground arith)
load_between-IsSound none none m v = ground arith

execute_load-IsSound : (op : ℕ) → IsSound (execute_load op)
unfolding execute_load halt
execute_load-IsSound op m v =
    ground (arith, load_between-IsSound (reg_ref (op / 8)) (reg_ref op) m v)

arithmetic_on-IsSound : (reg : Option Reg) (k : ℕ) → IsSound (arithmetic_on reg k)
unfolding arithmetic_on
arithmetic_on-IsSound (some src) k m v =
    ground (arith, arithmetic-Computes k m.regs (get_reg m.regs src) v (get_reg-lt m.regs src v))
arithmetic_on-IsSound none k m v =
    let x = read8 m (get_pair m.regs hl) in
    ground (arith, arithmetic-Computes k m.regs x v (read8-lt m (get_pair m.regs hl)))

-- A selected case is one of the table's.
select-IsSound :
    (op : ℕ) {cases : List Case} → EachIsSound cases → IsSound (select op cases illegal)
unfolding select
select-IsSound op done m v = illegal-IsSound m v
select-IsSound op (◌▸◌ {k} {cases} sound each) m v = elim (Bool-cases (op == k)) [
  | inl hit ↦ rw hit (sound m v)
  | inr miss ↦ rw miss (select-IsSound op each m v)
]

append-EachIsSound : {xs ys : List Case} → EachIsSound xs → EachIsSound ys → EachIsSound (xs ++ ys)
append-EachIsSound done q = q
append-EachIsSound (sound ▸ each) q = sound ▸ append-EachIsSound each q

switch_cases-EachIsSound : EachIsSound switch_cases
unfolding switch_cases
switch_cases-EachIsSound =
    append-EachIsSound
      (append-EachIsSound
        (append-EachIsSound
          (append-EachIsSound
            (append-EachIsSound
              (append-EachIsSound (append-EachIsSound cases_00-EachIsSound cases_10-EachIsSound)
                cases_20-EachIsSound)
              cases_30-EachIsSound)
            cases_c0-EachIsSound)
          cases_d0-EachIsSound)
        cases_e0-EachIsSound)
      cases_f0-EachIsSound

-- Every opcode keeps the registers' ranges, F's clear low nibble among them, and adds 0 to 24 ticks,
-- a multiple of 4.
pub execute-IsSound : (op : ℕ) → IsSound (execute op)
unfolding execute execute_arithmetic
execute-IsSound op m v = ground (
  arith,
  execute_load-IsSound op m v,
  arithmetic_on-IsSound (reg_ref op) (op / 8 % 8) m v,
  select-IsSound op switch_cases-EachIsSound m v,
)

-- From valid registers an instruction leads to valid registers, and reports 0 to 24 ticks, a multiple
-- of 4.
pub cpu_step-RegsIsValid :
    (m : Machine)
    → RegsIsValid m.regs
    → RegsIsValid (cpu_step m).0.regs × ((cpu_step m).1 ≤ 24) × ((cpu_step m).1 % 4 ≡ 0)
unfolding cpu_step
cpu_step-RegsIsValid m v =
    let m0 = with_regs m (record (m.regs) { ticks = 0 }) in
    let m' = at_pc m0 (m0.regs.pc + 1) in
    ground (arith, execute-IsSound (read8 m0 m.regs.pc) m' (ground arith))
