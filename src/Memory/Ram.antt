-- ===== src/Memory/Ram.antt =====
-- Work RAM (C000-FDFF) and high RAM (FF80-FFFE) through `Read8` and `Write8` of
-- carbon-pc/src/gb/Memory.cpp.
use open_carbon.Base.{
  ℕ, ◌+◌, ◌-◌, ◌%◌, ◌^◌, ◌≤◌, ◌<◌, ◌≡◌, ◌≢◌, ◌⊎◌, inl, inr, ap, arith, update, u8, u16, u32,
}
use open_carbon.State.{Machine}
use open_carbon.Memory.Wram.{wram_index, wram_read, wram_write}
use open_carbon.Memory.Map.{
  read8, read16, map_read, high_read, write8, write16, write8_at, map_write, high_write,
}

-- An address of work RAM or of its echo.
abbrev pub InWram : ℕ → Type 0
InWram addr = (0xc000 ≤ addr) × (addr < 0xfe00)

abbrev pub InHram : ℕ → Type 0
InHram addr = (0xff80 ≤ addr) × (addr < 0xffff)

-- A byte written to work RAM: one cell changes, and nothing else of the machine.
pub write8-wram :
    (m : Machine) (addr value : ℕ)
    → InWram addr
    → write8 m addr value ≡ record m { wram = update m.wram (wram_index m addr) value }
unfolding write8 write8_at map_write high_write wram_write
write8-wram m addr value h = ground arith

pub read8-wram :
    (m : Machine) (addr : ℕ) → InWram addr → read8 m addr ≡ u8 (m.wram (wram_index m addr))
unfolding read8 map_read high_read wram_read
read8-wram m addr h = ground arith

pub write8-hram :
    (m : Machine) (addr value : ℕ)
    → InHram addr
    → write8 m addr value ≡ record m {
      screen = record (m.screen) { hram = update m.screen.hram (addr - 0xff80) value };
    }
unfolding write8 write8_at map_write high_write
write8-hram m addr value h =
    let e : addr - 0xff80 ≡ u16 addr % 2 ^ 7 = omega arith in rw e (ground arith)

pub read8-hram :
    (m : Machine) (addr : ℕ) → InHram addr → read8 m addr ≡ u8 (m.screen.hram (addr - 0xff80))
unfolding read8 map_read high_read
read8-hram m addr h = let e : addr - 0xff80 ≡ u16 addr % 2 ^ 7 = omega arith in rw e (ground arith)

-- The cell of an address keeps the address's low twelve bits.
wram_index-low : (m : Machine) (addr : ℕ) → wram_index m addr % 2 ^ 12 ≡ addr % 2 ^ 12
unfolding wram_index
wram_index-low m addr = ground arith

-- Neighbouring addresses have different cells.
wram_index-next : (m : Machine) (addr : ℕ) → wram_index m (addr + 1) ≢ wram_index m addr
wram_index-next m addr e =
    omega (arith, wram_index-low m addr, wram_index-low m (addr + 1), ap (λ n. n % 2 ^ 12) e)

-- Two neighbouring bytes that are both of work RAM, or both of high RAM.
abbrev pub InRam : ℕ → Type 0
InRam addr = (InWram addr × InWram (addr + 1)) ⊎ (InHram addr × InHram (addr + 1))

-- A word of 16 bits written to work RAM, or to high RAM, is read back through the memory map.
pub read16-write16 :
    (m : Machine) (addr value : ℕ)
    → InRam addr
    → value < 2 ^ 16
    → read16 (write16 m addr value) addr ≡ value
unfolding read16 write16 wram_index
read16-write16 m addr value (inl (low, high)) bound =
    let e : u32 (addr + 1) ≡ addr + 1 = omega arith in
    rw
      (
        e,
        write8-wram m addr (u8 value) low,
        write8-wram _ (addr + 1) _ high,
        read8-wram _ addr low,
        read8-wram _ (addr + 1) high,
      )
      (ground (arith, wram_index-next m addr))
read16-write16 m addr value (inr (low, high)) bound =
    let e : u32 (addr + 1) ≡ addr + 1 = omega arith in
    rw
      (
        e,
        write8-hram m addr (u8 value) low,
        write8-hram _ (addr + 1) _ high,
        read8-hram _ addr low,
        read8-hram _ (addr + 1) high,
      )
      (ground arith)
