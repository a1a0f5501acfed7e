-- ===== src/Cpu/Interrupts.antt =====
-- `ServiceInterrupts` of carbon-pc/src/gb/Cpu.cpp against a table of the five sources.
use open_carbon.Base.{
  ℕ, ◌+◌, ◌-◌, ◌^◌, ◌<◌, ◌≡◌, ◌≢◌, refl, arith, List, [], ◌∷◌, Option, none, some, true, false,
  Bool, ◌==◌, if◌then◌else◌, bit_and, bit, u16,
}
use open_carbon.State.{Machine}
use open_carbon.Cpu.Step.{
  service_interrupts, update_ime, take_interrupt, take_vblank, vector, wake, clear_flags,
}
use open_carbon.Cpu.Bus.{push16}
use open_carbon.Memory.Frame.{write16-Untouched}

-- The sources in the order of priority, each with its vector: VBlank, Joypad, STAT, Serial, Timer.
abbrev pub sources : List (ℕ × ℕ)
sources = (0, 0x40) ∷ (4, 0x60) ∷ (1, 0x48) ∷ (3, 0x58) ∷ (2, 0x50) ∷ []

-- The first source whose bit is pending.
abbrev pub first_pending : ℕ → List (ℕ × ℕ) → Option (ℕ × ℕ)
first_pending pending [] = none
first_pending pending ((n, target) ∷ rest) =
    if bit pending n == 1 then some (n, target) else first_pending pending rest

-- What one service does, for what is pending: nothing; or it wakes the CPU; or it jumps.
abbrev pub Serviced : Machine → Machine × ℕ → Option (ℕ × ℕ) → Type 0
Serviced m (m', ticks) none = (m' ≡ m) × (ticks ≡ 0)
Serviced m (m', ticks) (some (n, target)) =
    (m.ints.ime ≡ 0 → (m' ≡ record m { regs = record (m.regs) { halted = 0 } }) × (ticks ≡ 0))
    × (m.ints.ime ≢ 0
        → (m'.regs ≡ record (m.regs) { halted = 0; pc = target; sp = u16 (m.regs.sp + 2 ^ 16 - 2) })
          × (m'.ints.ime ≡ 0)
          × (m'.ints.ime_request ≡ 0)
          × (ticks ≡ 0x14))

push16-regs :
    (m : Machine) (value : ℕ)
    → (push16 value m).regs ≡ record (m.regs) { sp = u16 (m.regs.sp + 2 ^ 16 - 2) }
unfolding push16
push16-regs m value = (write16-Untouched _ _ _).regs

push16-ime :
    (m : Machine) (value : ℕ)
    → ((push16 value m).ints.ime ≡ m.ints.ime)
      × ((push16 value m).ints.ime_request ≡ m.ints.ime_request)
unfolding push16
push16-ime m value = ((write16-Untouched _ _ _).ime, (write16-Untouched _ _ _).ime_request)

-- The machine whose PC `vector` pushes.
abbrev disabled : Machine → Machine
disabled m = record m { ints = record (m.ints) { ime_request = 0; ime = 0 } }

-- Every taken interrupt jumps, with the same registers and master flags.
vector-Jumped :
    (mask target : ℕ) (early : Bool) (m : Machine)
    → target < 2 ^ 16
    → let (m', ticks) = vector mask target early m in
      (m'.regs ≡ record (m.regs) { halted = 0; pc = target; sp = u16 (m.regs.sp + 2 ^ 16 - 2) })
      × (m'.ints.ime ≡ 0)
      × (m'.ints.ime_request ≡ 0)
      × (ticks ≡ 0x14)
unfolding vector clear_flags
vector-Jumped mask target true m bound =
    let start = disabled (clear_flags mask m) in
    let e = push16-regs start m.regs.pc in
    let (i, q) = push16-ime start m.regs.pc in
    let t : u16 target ≡ target = omega arith in (rw (e, t) refl, i, q, refl)
vector-Jumped mask target false m bound =
    let start = disabled m in
    let e = push16-regs start m.regs.pc in
    let (i, q) = push16-ime start m.regs.pc in
    let t : u16 target ≡ target = omega arith in (rw (e, t) refl, i, q, refl)

take_interrupt-Serviced :
    (mask n target : ℕ) (early : Bool) (m : Machine)
    → target < 2 ^ 16
    → Serviced m (take_interrupt mask target early m) (some (n, target))
unfolding take_interrupt wake
take_interrupt-Serviced mask n target early m bound =
    ground (arith, vector-Jumped mask target early m bound)

take_vblank-Serviced : (m : Machine) → Serviced m (take_vblank m) (some (0, 0x40))
unfolding take_vblank
take_vblank-Serviced m = ground (
  arith,
  vector-Jumped 0xfe 0x40 true (record m { regs = record (m.regs) { halted = 0 } }) (omega arith),
)

-- One service, after EI's delay is counted down, goes by the first pending and enabled source in the
-- order of priority: with none it does nothing; with interrupts disabled it wakes the CPU, in no ticks;
-- otherwise it jumps to the source's vector in 20 ticks, with SP two lower and interrupts disabled.
pub service_interrupts-Serviced :
    (m0 : Machine)
    → let m = update_ime m0 in
      let pending = bit_and m.ints.int_flags m.ints.int_enable in
      Serviced m (service_interrupts m0) (first_pending pending sources)
unfolding service_interrupts
service_interrupts-Serviced m0 =
    let m = update_ime m0 in
    ground (
      arith,
      take_vblank-Serviced m,
      take_interrupt-Serviced 0xef 4 0x60 true m (omega arith),
      take_interrupt-Serviced 0xfd 1 0x48 false m (omega arith),
      take_interrupt-Serviced 0xf7 3 0x58 false m (omega arith),
      take_interrupt-Serviced 0xfb 2 0x50 false m (omega arith),
    )
