-- ===== src/Cart/Ram.antt =====
-- The cartridge RAM behind `Mbc1` and `Mbc5` of carbon-pc/src/gb/Cartridge.cpp.
use open_carbon.Base.{
  ℕ, ◌+◌, ◌-◌, ◌*◌, ◌%◌, ◌^◌, ◌≤◌, ◌<◌, ◌≡◌, ◌≢◌, refl, arith, update, bits, true, u32,
  bit_and-le_left, bit_and-le_right,
}
use open_carbon.State.{Board, Mbc1Globals, Mbc5Globals}
use open_carbon.Cart.Mbc1
use open_carbon.Cart.Mbc5

-- An address of A000-BFFF.
abbrev pub InCartRam : ℕ → Type 0
InCartRam addr = (0xa000 ≤ addr) × (addr < 0xc000)

mbc1_index-lt :
    (g : Mbc1Globals) (board : Board) (addr : ℕ)
    → 0 < board.ram_size
    → board.ram_size ≤ 2 ^ 17
    → Mbc1.ram_index g board addr < board.ram_size
unfolding Mbc1.ram_index
mbc1_index-lt g board addr some_ram small =
    let mask : u32 (board.ram_size + 2 ^ 32 - 1) ≡ board.ram_size - 1 = omega arith in
    rw mask (
      ground (
        arith,
        bit_and-le_left (board.ram_size - 1) (addr % 2 ^ 13),
        bit_and-le_right (addr % 2 ^ 13 + u32 (g.bank_high * 2 ^ 13)) (board.ram_size - 1),
      ))

mbc5_index-lt :
    (g : Mbc5Globals) (board : Board) (addr : ℕ)
    → 0 < board.ram_size
    → board.ram_size ≤ 2 ^ 17
    → Mbc5.ram_index g board addr < board.ram_size
unfolding Mbc5.ram_index
mbc5_index-lt g board addr some_ram small =
    let mask : u32 (board.ram_size + 2 ^ 32 - 1) ≡ board.ram_size - 1 = omega arith in
    rw mask (
      omega
        (arith, bit_and-le_right (addr % 2 ^ 13 + u32 (g.ram_bank * 2 ^ 13)) (board.ram_size - 1)))

-- In an enabled buffer a write updates one cell, and a read takes one.
mbc1_write_ram :
    (g : Mbc1Globals) (board : Board) (addr value : ℕ)
    → InCartRam addr
    → g.ram_enable ≢ 0
    → 0 < board.ram_size
    → Mbc1.write g board addr value ≡ (
      g,
      record board {
        sram = update board.sram (Mbc1.ram_index g board addr) value;
        sram_dirty = true;
      },
    )
unfolding Mbc1.write Mbc1.write_ram
mbc1_write_ram g board addr value h enabled some_ram =
    let region : bits addr 13 3 ≡ 5 = omega arith in ground arith

mbc1_read_ram :
    (g : Mbc1Globals) (board : Board) (addr : ℕ)
    → InCartRam addr
    → g.ram_enable ≢ 0
    → 0 < board.ram_size
    → Mbc1.read g board addr ≡ board.sram (Mbc1.ram_index g board addr)
unfolding Mbc1.read
mbc1_read_ram g board addr h enabled some_ram =
    let region : bits addr 13 3 ≡ 5 = omega arith in ground arith

mbc5_write_ram :
    (g : Mbc5Globals) (board : Board) (addr value : ℕ)
    → InCartRam addr
    → g.ram_enable ≢ 0
    → 0 < board.ram_size
    → Mbc5.write g board addr value ≡ (
      record g { dirty = 1 },
      record board { sram = update board.sram (Mbc5.ram_index g board addr) value },
    )
unfolding Mbc5.write
mbc5_write_ram g board addr value h enabled some_ram =
    let region : bits addr 13 3 ≡ 5 = omega arith in ground arith

mbc5_read_ram :
    (g : Mbc5Globals) (board : Board) (addr : ℕ)
    → InCartRam addr
    → g.ram_enable ≢ 0
    → 0 < board.ram_size
    → Mbc5.read g board addr ≡ board.sram (Mbc5.ram_index g board addr)
unfolding Mbc5.read
mbc5_read_ram g board addr h enabled some_ram =
    let region : bits addr 13 3 ≡ 5 = omega arith in ground arith

-- With the RAM of an MBC1 enabled, and 1 byte to 128 KB of it: a byte written to A000-BFFF is stored
-- inside the buffer and read back, the rest of the buffer and the bank registers are as before, and
-- the buffer is marked for the save file.
pub mbc1-ram :
    (g : Mbc1Globals) (board : Board) (addr value : ℕ)
    → InCartRam addr
    → g.ram_enable ≢ 0
    → 0 < board.ram_size
    → board.ram_size ≤ 2 ^ 17
    → let (g', board') = Mbc1.write g board addr value in
      (Mbc1.read g' board' addr ≡ value)
      × (g' ≡ g)
      × (Mbc1.ram_index g board addr < board.ram_size)
      × ((i : ℕ) → i ≢ Mbc1.ram_index g board addr → board'.sram i ≡ board.sram i)
      × (board'.sram_dirty ≡ true)
unfolding Mbc1.ram_index
mbc1-ram g board addr value h enabled some_ram small =
    let index = Mbc1.ram_index g board addr in
    let board' = record board { sram = update board.sram index value; sram_dirty = true } in
    rw (mbc1_write_ram g board addr value h enabled some_ram) (
      rw (mbc1_read_ram g board' addr h enabled some_ram) (ground arith),
      refl,
      mbc1_index-lt g board addr some_ram small,
      λ i other. ground arith,
      refl,
    )

-- With the RAM of an MBC5 enabled, and 1 byte to 128 KB of it: a byte written to A000-BFFF is stored
-- inside the buffer and read back, the rest of the buffer and the bank registers are as before, and
-- the buffer is marked for the save file.
pub mbc5-ram :
    (g : Mbc5Globals) (board : Board) (addr value : ℕ)
    → InCartRam addr
    → g.ram_enable ≢ 0
    → 0 < board.ram_size
    → board.ram_size ≤ 2 ^ 17
    → let (g', board') = Mbc5.write g board addr value in
      (Mbc5.read g' board' addr ≡ value)
      × (g' ≡ record g { dirty = 1 })
      × (Mbc5.ram_index g board addr < board.ram_size)
      × ((i : ℕ) → i ≢ Mbc5.ram_index g board addr → board'.sram i ≡ board.sram i)
unfolding Mbc5.ram_index
mbc5-ram g board addr value h enabled some_ram small =
    let index = Mbc5.ram_index g board addr in
    let g' = record g { dirty = 1 } in
    let board' = record board { sram = update board.sram index value } in
    rw (mbc5_write_ram g board addr value h enabled some_ram) (
      rw (mbc5_read_ram g' board' addr h enabled some_ram) (ground arith),
      refl,
      mbc5_index-lt g board addr some_ram small,
      λ i other. ground arith,
    )
