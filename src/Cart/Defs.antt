-- ===== src/Cart/Defs.antt =====
-- The two virtual calls that the core makes of the current cartridge: `Write` and `Read`.
use open_carbon.Base.{ℕ, ◌%◌, ◌^◌}
use open_carbon.State.{Machine, Cartridge, rom_only, mbc1, mbc3, mbc5, system_only}
use open_carbon.Cart.Mbc1
use open_carbon.Cart.Mbc3
use open_carbon.Cart.Mbc5

unfoldable pub read_by : Machine → Cartridge → ℕ → ℕ
unfolding Mbc1.read Mbc3.read Mbc5.read
read_by m (rom_only board) addr = board.rom (addr % 2 ^ 15)
read_by m (mbc1 board) addr = Mbc1.read m.mbc1_globals board addr
read_by m (mbc3 board r) addr = Mbc3.read board r addr
read_by m (mbc5 board) addr = Mbc5.read m.mbc5_globals board addr
read_by m system_only addr = 0

unfoldable pub cart_read : Machine → ℕ → ℕ
unfolding read_by
cart_read m addr = read_by m m.cart addr

unfoldable pub write_by : Machine → Cartridge → ℕ → ℕ → Machine
unfolding Mbc1.write Mbc3.write Mbc5.write
write_by m (rom_only board) addr value = m
write_by m (mbc1 board) addr value =
    let (g, board') = Mbc1.write m.mbc1_globals board addr value in
    record m { mbc1_globals = g; cart = mbc1 board' }
write_by m (mbc3 board r) addr value =
    let (board', r') = Mbc3.write board r addr value in record m { cart = mbc3 board' r' }
write_by m (mbc5 board) addr value =
    let (g, board') = Mbc5.write m.mbc5_globals board addr value in
    record m { mbc5_globals = g; cart = mbc5 board' }
write_by m system_only addr value = m

unfoldable pub cart_write : Machine → ℕ → ℕ → Machine
unfolding write_by
cart_write m addr value = write_by m m.cart addr value
