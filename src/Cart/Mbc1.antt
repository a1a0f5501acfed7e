-- ===== src/Cart/Mbc1.antt =====
-- `Mbc1` of carbon-pc/src/gb/Cartridge.cpp. Its bank registers are globals of the core.
use open_carbon.Base.{
  ℕ, ◌+◌, ◌-◌, ◌*◌, ◌%◌, ◌^◌, true, false, not, ◌&&◌, Bytes, ltb, ◌==◌, if◌then◌else◌, bit_and,
  bit_or, update, u32, bits,
}
use open_carbon.State.{Board, SramFile, Mbc1Globals}
use open_carbon.Cart.Files.{flush_sram}

-- `size - 1` as a `uint32_t`
abbrev pub size_mask : ℕ → ℕ
size_mask size = u32 (size + 2 ^ 32 - 1)

-- The constructor: a new buffer, and the low bank register; the other globals keep their values.
unfoldable pub create : Mbc1Globals → Bytes → ℕ → ℕ → SramFile → Mbc1Globals × Board
create g rom size ram file = (
  record g { bank_low = 1 },
  record {
    rom = rom;
    rom_size = size;
    ram_size = ram;
    sram = λ _. 0;
    sram_loaded = false;
    sram_dirty = false;
    file = file;
  },
)

-- Where an access to A000-BFFF falls in the buffer.
unfoldable pub ram_index : Mbc1Globals → Board → ℕ → ℕ
ram_index g board addr =
    if g.mode == 0
    then bit_and (size_mask board.ram_size) (addr % 2 ^ 13)
    else bit_and (addr % 2 ^ 13 + u32 (g.bank_high * 2 ^ 13)) (size_mask board.ram_size)

-- Where an access to 0000-7FFF falls in the ROM.
unfoldable pub rom_index : Mbc1Globals → Board → ℕ → ℕ
rom_index g board addr =
    let index = addr % 2 ^ 14 in
    let bank = if g.mode == 0 then bit_or g.bank_low (u32 (g.bank_high * 2 ^ 5)) else g.bank_low in
    if bits addr 14 1 == 1
    then bit_and (index + u32 (bank * 2 ^ 14)) (size_mask board.rom_size)
    else index

-- Leaving the RAM enabled region: a dirty buffer is flushed once.
unfoldable pub write_enable : Mbc1Globals → Board → ℕ → Mbc1Globals × Board
unfolding flush_sram
write_enable g board value =
    let closes = not (value % 16 == 10) in
    let enabled = g.ram_enable % 2 == 1 && board.sram_loaded in
    (
      record g { ram_enable = if value % 16 == 10 then 1 else 0 },
      (if closes && enabled && board.sram_dirty
          then record (flush_sram board) { sram_dirty = false }
          else board),
    )

unfoldable pub write_ram : Mbc1Globals → Board → ℕ → ℕ → Board
unfolding ram_index
write_ram g board addr value =
    if bits addr 13 3 == 5 && not (g.ram_enable == 0) && not (board.ram_size == 0)
    then record board { sram = update board.sram (ram_index g board addr) value; sram_dirty = true }
    else board

unfoldable pub write : Mbc1Globals → Board → ℕ → ℕ → Mbc1Globals × Board
unfolding write_enable write_ram
write g board addr value =
    let region = bits addr 13 3 in
    if region == 0
    then write_enable g board value
    else if bits addr 14 2 == 0
    then (record g { bank_low = if value % 32 == 0 then 1 else value % 32 }, board)
    else if ltb region 3
    then (record g { bank_high = value % 4 }, board)
    else if bits addr 15 1 == 1
    then (g, write_ram g board addr value)
    else (record g { mode = if value == 1 then 1 else if value == 0 then 0 else g.mode }, board)

unfoldable pub read : Mbc1Globals → Board → ℕ → ℕ
unfolding ram_index rom_index
read g board addr =
    if bits addr 15 1 == 0
    then board.rom (rom_index g board addr)
    else if bits addr 13 3 == 5 && not (g.ram_enable == 0)
    then (if board.ram_size == 0 then 0 else board.sram (ram_index g board addr))
    else 0
