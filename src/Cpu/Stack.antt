-- ===== src/Cpu/Stack.antt =====
-- The stack of carbon-pc/src/gb/Cpu.cpp: `Push16` and `Pop16`.
use open_carbon.Base.{ℕ, ◌+◌, ◌-◌, ◌^◌, ◌≤◌, ◌<◌, ◌≡◌, refl, ◌∙◌, ap, arith, u16, u32}
use open_carbon.State.{Machine, Regs}
use open_carbon.Memory.{read16, write16}
use open_carbon.Memory.Ram.{InRam, read16-write16}
use open_carbon.Memory.Frame.{write16-Untouched}
use open_carbon.Cpu.Bus.{push16, pop16, with_regs}

-- Where SP points while the word is on the stack.
pushed_sp : (sp : ℕ) → 2 ≤ sp → sp < 2 ^ 16 → u32 (sp + 2 ^ 32 - 2) ≡ sp - 2
pushed_sp sp least most = omega arith

pushed_sp16 : (sp : ℕ) → 2 ≤ sp → sp < 2 ^ 16 → u16 (sp + 2 ^ 16 - 2) ≡ sp - 2
pushed_sp16 sp least most = omega arith

popped_sp : (sp : ℕ) → 2 ≤ sp → sp < 2 ^ 16 → u16 (sp - 2 + 2) ≡ sp
popped_sp sp least most = omega arith

restore_sp :
    (r r' : Regs) (low : ℕ)
    → r' ≡ record r { sp = low }
    → u16 (low + 2) ≡ r.sp
    → record r' { sp = u16 (r'.sp + 2) } ≡ r
restore_sp r r' low e back = rw e (rw back refl)

pop16-write16 :
    (m : Machine) (low value : ℕ)
    → InRam low
    → value < 2 ^ 16
    → u16 (low + 2) ≡ m.regs.sp
    → let (m', popped) = pop16 (write16 (with_regs m (record (m.regs) { sp = low })) low value) in
      (popped ≡ value) × (m'.regs ≡ m.regs)
unfolding pop16
pop16-write16 m low value stack bound back =
    let start = with_regs m (record (m.regs) { sp = low }) in
    let kept = (write16-Untouched start low value).regs in
    (
      ap (λ r. read16 (write16 start low value) (Regs.sp r)) kept
          ∙ read16-write16 start low value stack bound,
      restore_sp m.regs (write16 start low value).regs low kept back,
    )

-- A word of 16 bits that is pushed to a stack in work RAM or high RAM, with SP at least 2, is popped
-- again, and the registers, SP among them, are as before the push.
pub pop16-push16 :
    (m : Machine) (value : ℕ)
    → 2 ≤ m.regs.sp
    → m.regs.sp < 2 ^ 16
    → InRam (m.regs.sp - 2)
    → value < 2 ^ 16
    → let (m', popped) = pop16 (push16 value m) in (popped ≡ value) × (m'.regs ≡ m.regs)
unfolding push16
pop16-push16 m value least most stack bound =
    rw (pushed_sp m.regs.sp least most, pushed_sp16 m.regs.sp least most)
      (pop16-write16 m (m.regs.sp - 2) value stack bound (popped_sp m.regs.sp least most))
