-- ===== src/Cart/Mbc5.antt =====
-- `Mbc5` of carbon-pc/src/gb/Cartridge.cpp. Its bank registers and its dirty flag are globals of
-- the core.
use open_carbon.Base.{
  ℕ, ◌+◌, ◌*◌, ◌%◌, ◌^◌, false, not, ◌&&◌, Bytes, ltb, ◌==◌, if◌then◌else◌, bit_and, bit_or, update,
  u16, u32, bits,
}
use open_carbon.State.{Board, SramFile, Mbc5Globals}
use open_carbon.Cart.Files.{flush_sram}
use open_carbon.Cart.Mbc1.{size_mask}

unfoldable pub create : Mbc5Globals → Bytes → ℕ → ℕ → SramFile → Mbc5Globals × Board
create g rom size ram file = (
  record g { dirty = 0; bank_low = 1; bank_high = 0 },
  record {
    rom = rom;
    rom_size = size;
    ram_size = ram;
    sram = λ _. 0;
    sram_loaded = false;
    sram_dirty = false;
    file = file;
  },
)

unfoldable pub ram_index : Mbc5Globals → Board → ℕ → ℕ
ram_index g board addr =
    bit_and (addr % 2 ^ 13 + u32 (g.ram_bank * 2 ^ 13)) (size_mask board.ram_size)

-- The bank is not masked to the ROM's size.
unfoldable pub rom_index : Mbc5Globals → ℕ → ℕ
rom_index g addr =
    let bank = u16 (bit_or g.bank_low (g.bank_high * 2 ^ 8)) in
    if bits addr 14 1 == 1 then addr % 2 ^ 14 + bank * 2 ^ 14 else addr % 2 ^ 14

unfoldable pub write_enable : Mbc5Globals → Board → ℕ → Mbc5Globals × Board
unfolding flush_sram
write_enable g board value =
    let enabled = g.ram_enable % 2 == 1 && board.sram_loaded in
    let enable : ℕ = if value % 16 == 10 then 1 else 0 in
    if not (g.dirty == 0) && not (value % 16 == 10) && enabled
    then (record g { dirty = 0; ram_enable = enable }, flush_sram board)
    else (record g { ram_enable = enable }, board)

unfoldable pub write : Mbc5Globals → Board → ℕ → ℕ → Mbc5Globals × Board
unfolding write_enable ram_index
write g board addr value =
    let region = bits addr 13 3 in
    if region == 0
    then write_enable g board value
    else if ltb (bits addr 12 4) 3
    then (record g { bank_low = value }, board)
    else if bits addr 14 2 == 0
    then (record g { bank_high = value % 2 * 2 }, board)
    else if ltb region 3
    then (record g { ram_bank = value % 16 }, board)
    else if region == 5 && not (g.ram_enable == 0) && not (board.ram_size == 0)
    then (
      record g { dirty = 1 },
      record board { sram = update board.sram (ram_index g board addr) value },
    )
    else (g, board)

unfoldable pub read : Mbc5Globals → Board → ℕ → ℕ
unfolding ram_index rom_index
read g board addr =
    if bits addr 15 1 == 0
    then board.rom (rom_index g addr)
    else if bits addr 13 3 == 5 && not (g.ram_enable == 0)
    then (if board.ram_size == 0 then 0xff else board.sram (ram_index g board addr))
    else 0xff
