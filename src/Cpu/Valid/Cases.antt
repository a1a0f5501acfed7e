-- ===== src/Cpu/Valid/Cases.antt =====
-- The cases of the switch keep the registers' ranges: the shapes, and the accesses to memory.
use open_carbon.Base.{
  ℕ, ◌+◌, ◌-◌, ◌/◌, ◌%◌, ◌^◌, ◌≤◌, ◌<◌, ◌≡◌, arith, Bool, true, false, Option, some, none, u16, bit,
  ◌==◌, Bool-cases, inl, inr,
}
use open_carbon.State.{Regs, Machine}
use open_carbon.Memory.{read8, read16, write8}
use open_carbon.Memory.Frame.{write8-Untouched, write16-Untouched}
use open_carbon.Cpu.Registers.{Reg, get_reg, PairName, get_pair, hl, reg_ref}
use open_carbon.Cpu.Bus.{
  at_pc, fetch8, fetch16, push16, pop16, jump_relative, jump_absolute, call_absolute, return_now,
  return_if, restart, switch_speed, stop, illegal,
}
use open_carbon.Cpu.Cb.{cb_on, stores, execute_cb, cb_value, cb_flags}
use open_carbon.Cpu.Execute.Cases.{
  on_regs, load_pair, load_reg, store_a, load_a, store_stepping, load_stepping, modify_hl,
  fetch_operand, push_value, pop_into,
}
use open_carbon.Cpu.Valid.{RegsIsValid, Computes, Runs}
use open_carbon.Cpu.Valid.Alu.{
  get_reg-lt, set_reg-Computes, set_pair-Computes, cb_value-lt, cb_flags-IsFlags,
}

-- What a case of the switch has to keep.
abbrev pub IsSound : (Machine → Machine) → Type 0
IsSound body = (m : Machine) → RegsIsValid m.regs → Runs m.regs (body m).regs

pub read8-lt : (m : Machine) (addr : ℕ) → read8 m addr < 2 ^ 8
unfolding read8
read8-lt m addr = omega arith

pub read16-lt : (m : Machine) (addr : ℕ) → read16 m addr < 2 ^ 16
unfolding read16
read16-lt m addr = omega arith

pub regs-write8 : (m : Machine) (addr value : ℕ) → (write8 m addr value).regs ≡ m.regs
regs-write8 m addr value = (write8-Untouched m addr value).regs

pub regs-push16 :
    (value : ℕ) (m : Machine)
    → (push16 value m).regs ≡ record (m.regs) { sp = u16 (m.regs.sp + 2 ^ 16 - 2) }
unfolding push16
regs-push16 value m = (write16-Untouched _ _ _).regs

pub on_regs-IsSound :
    (n : ℕ) (g : Regs → Regs)
    → n ≤ 24
    → n % 4 ≡ 0
    → ((r : Regs) → RegsIsValid r → Computes r (g r))
    → IsSound (on_regs n g)
unfolding on_regs
on_regs-IsSound n g most cycles computes m v = ground (arith, computes m.regs v)

pub load_pair-IsSound : (p : PairName) → IsSound (load_pair p)
unfolding load_pair fetch16
load_pair-IsSound p m v =
    let r = record (m.regs) { pc = u16 (m.regs.pc + 2) } in
    ground (arith, set_pair-Computes r p (read16 m m.regs.pc) (ground arith))

pub load_reg-IsSound : (reg : Reg) → IsSound (load_reg reg)
unfolding load_reg fetch8
load_reg-IsSound reg m v =
    let r = record (m.regs) { pc = u16 (m.regs.pc + 1) } in
    ground (arith, set_reg-Computes r reg (read8 m m.regs.pc) (ground arith) (read8-lt m m.regs.pc))

pub store_a-IsSound : (p : PairName) → IsSound (store_a p)
unfolding store_a
store_a-IsSound p m v = rw regs-write8 (ground arith)

pub load_a-IsSound : (p : PairName) → IsSound (load_a p)
unfolding load_a
load_a-IsSound p m v = ground (arith, read8-lt m (get_pair m.regs p))

pub store_stepping-IsSound :
    (g : Regs → Regs) → ((r : Regs) → RegsIsValid r → Computes r (g r)) → IsSound (store_stepping g)
unfolding store_stepping
store_stepping-IsSound g computes m v = rw regs-write8 (ground (arith, computes m.regs v))

pub load_stepping-IsSound :
    (g : Regs → Regs) → ((r : Regs) → RegsIsValid r → Computes r (g r)) → IsSound (load_stepping g)
unfolding load_stepping
load_stepping-IsSound g computes m v =
    ground (arith, computes m.regs v, read8-lt (record m { regs = g m.regs }) (get_pair m.regs hl))

pub modify_hl-IsSound :
    (g : Regs → ℕ → Regs × ℕ)
    → ((r : Regs) (x : ℕ) → RegsIsValid r → Computes r (g r x).0)
    → IsSound (modify_hl g)
unfolding modify_hl
modify_hl-IsSound g computes m v =
    rw regs-write8 (ground (arith, computes m.regs (read8 m (get_pair m.regs hl)) v))

pub fetch_operand-IsSound :
    (g : Regs → ℕ → Regs)
    → ((r : Regs) (x : ℕ) → RegsIsValid r → x < 2 ^ 8 → Computes r (g r x))
    → IsSound (fetch_operand g)
unfolding fetch_operand fetch8
fetch_operand-IsSound g computes m v =
    let r = record (m.regs) { pc = u16 (m.regs.pc + 1) } in
    ground (arith, computes r (read8 m m.regs.pc) (ground arith) (read8-lt m m.regs.pc))

pub push_value-IsSound : (g : Regs → ℕ) → IsSound (push_value g)
unfolding push_value
push_value-IsSound g m v = rw regs-push16 (ground arith)

pub pop_into-IsSound :
    (g : Regs → ℕ → Regs)
    → ((r : Regs) (x : ℕ) → RegsIsValid r → x < 2 ^ 16 → Computes r (g r x))
    → IsSound (pop_into g)
unfolding pop_into pop16
pop_into-IsSound g computes m v =
    let r = record (m.regs) { sp = u16 (m.regs.sp + 2) } in
    ground (arith, computes r (read16 m m.regs.sp) (ground arith) (read16-lt m m.regs.sp))

pub jump_relative-IsSound : (taken : Bool) → IsSound (jump_relative taken)
unfolding jump_relative
jump_relative-IsSound taken m v = ground arith

pub jump_absolute-IsSound : (taken : Bool) → IsSound (jump_absolute taken)
unfolding jump_absolute
jump_absolute-IsSound taken m v = ground arith

pub call_absolute-IsSound : (taken : Bool) → IsSound (call_absolute taken)
unfolding call_absolute
call_absolute-IsSound true m v =
    rw (regs-push16 (m.regs.pc + 2) (at_pc m (m.regs.pc + 2))) (ground arith)
call_absolute-IsSound false m v = ground arith

pub return_now-IsSound : (n : ℕ) → n ≤ 24 → n % 4 ≡ 0 → IsSound (return_now n)
unfolding return_now pop16
return_now-IsSound n most cycles m v = ground arith

pub return_if-IsSound : (taken : Bool) → IsSound (return_if taken)
unfolding return_if return_now pop16
return_if-IsSound taken m v = ground arith

pub restart-IsSound : (target : ℕ) → IsSound (restart target)
unfolding restart
restart-IsSound target m v = rw (regs-push16 m.regs.pc m) (ground arith)

pub illegal-IsSound : IsSound illegal
unfolding illegal
illegal-IsSound m v = ground arith

regs-switch_speed : (m : Machine) → (switch_speed m).regs ≡ m.regs
unfolding switch_speed
regs-switch_speed m = elim (Bool-cases (bit (read8 m 0xff4d) 0 == 1)) [
  | inl switches ↦ rw (switches, regs-write8)
  | inr stays ↦ rw stays
]

pub stop-IsSound : IsSound stop
unfolding stop
stop-IsSound m v = ground (arith, regs-switch_speed m)

cb_on-IsSound : (reg : Option Reg) (group : ℕ) → IsSound (cb_on reg group)
unfolding cb_on
cb_on-IsSound (some reg) group m v =
    let x = get_reg m.regs reg in
    let r = record (m.regs) { f = cb_flags group m.regs.f x } in
    let hx = get_reg-lt m.regs reg v in
    ground (
      arith,
      cb_flags-IsFlags group m.regs.f x v.flags,
      set_reg-Computes r reg (cb_value group x (bit m.regs.f 4))
          (ground (arith, cb_flags-IsFlags group m.regs.f x v.flags))
          (cb_value-lt group x (bit m.regs.f 4) hx),
    )
cb_on-IsSound none group m v =
    let x = read8 m (get_pair m.regs hl) in
    elim (Bool-cases (stores group == 1)) [
      | inl stored ↦
          rw (stored, regs-write8) (ground (arith, cb_flags-IsFlags group m.regs.f x v.flags))
      | inr kept ↦ rw kept (ground (arith, cb_flags-IsFlags group m.regs.f x v.flags))
    ]

pub execute_cb-IsSound : IsSound execute_cb
unfolding execute_cb fetch8
execute_cb-IsSound m v =
    let m' = at_pc m (m.regs.pc + 1) in
    let op = read8 m m.regs.pc in
    ground (arith, cb_on-IsSound (reg_ref op) (op / 8) m' (ground arith))
