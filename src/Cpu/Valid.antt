-- ===== src/Cpu/Valid.antt =====
-- The ranges of the registers that the instructions of carbon-pc/src/gb/Cpu.cpp keep, and the ticks
-- that they add.
pub mod Alu
pub mod Cases
pub mod Low
pub mod High
pub mod Step
use open_carbon.Base.{
  ℕ, zero, suc, ◌+◌, ◌-◌, ◌*◌, ◌/◌, ◌%◌, ◌^◌, ◌≤◌, ◌<◌, ◌≡◌, arith, Bool, true, ltb, ◌==◌, ◌&&◌,
  all_below, all_below_sound, and-true, ltb→lt, ==_iff,
}
use open_carbon.State.{Regs, Machine}

-- The low nibble of F is always clear.
abbrev pub IsFlags : ℕ → Type 0
IsFlags f = (f < 2 ^ 8) × (f % 16 ≡ 0)

pub record RegsIsValid (r : Regs) : Type 0 where
  pub flags : IsFlags r.f
  pub a : r.a < 2 ^ 8
  pub b : r.b < 2 ^ 8
  pub c : r.c < 2 ^ 8
  pub d : r.d < 2 ^ 8
  pub e : r.e < 2 ^ 8
  pub h : r.h < 2 ^ 8
  pub l : r.l < 2 ^ 8
  pub sp : r.sp < 2 ^ 16
  pub pc : r.pc < 2 ^ 16

-- A computation on registers: valid ones stay valid, and no ticks are added.
pub record Computes (r r' : Regs) : Type 0 where
  pub valid : RegsIsValid r'
  pub ticks : r'.ticks ≡ r.ticks

-- An instruction: the registers stay valid, and at most 24 ticks are added, in whole M-cycles.
pub record Runs (r r' : Regs) : Type 0 where
  pub valid : RegsIsValid r'
  pub least : r.ticks ≤ r'.ticks
  pub most : r'.ticks ≤ r.ticks + 24
  pub cycles : (r'.ticks - r.ticks) % 4 ≡ 0

-- F has sixteen values, so an operation on it is checked at each.
abbrev keeps_flags : (ℕ → ℕ) → ℕ → Bool
keeps_flags g k = ltb (g (k * 16)) 256 && g (k * 16) % 16 == 0

pub IsFlags-by_table :
    (g : ℕ → ℕ) (f : ℕ) → all_below 16 (keeps_flags g) ≡ true → IsFlags f → IsFlags (g f)
IsFlags-by_table g f table h =
    let e : f ≡ f / 16 * 16 = omega arith in
    let t = and-true _ _ (all_below_sound 16 (keeps_flags g) (f / 16) table (omega arith)) in
    rw e (ltb→lt _ _ t.0, (==_iff _ _).0 t.1)
