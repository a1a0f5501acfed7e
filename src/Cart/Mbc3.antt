-- ===== src/Cart/Mbc3.antt =====
-- `Mbc3` of carbon-pc/src/gb/Cartridge.cpp, with its clock.
pub mod Clock
use open_carbon.Base.{
  ℕ, ◌+◌, ◌-◌, ◌*◌, ◌/◌, ◌%◌, ◌^◌, Bool, true, false, not, ◌&&◌, ◌||◌, Bytes, ltb, leb, ◌==◌,
  if◌then◌else◌, bit_and, update, u8, u32, bit, bits,
}
use open_carbon.State.{Board, SramFile, Rtc}
use open_carbon.Cart.Files.{flush_sram}
use open_carbon.Cart.Mbc1.{size_mask}

unfoldable pub create : Bytes → ℕ → ℕ → Bool → SramFile → (ℕ → ℕ) → Board × Rtc
create rom size ram rtc_present file clock = (
  record {
    rom = rom;
    rom_size = size;
    ram_size = ram;
    sram = λ _. 0;
    sram_loaded = false;
    sram_dirty = false;
    file = file;
  },
  record {
    ram_enable = false;
    rom_bank = 1;
    ram_select = 0;
    has_rtc = rtc_present;
    seconds = 0;
    minutes = 0;
    hours = 0;
    day_low = 0;
    day_high = 0;
    latched = λ _. 0;
    last_time = 0;
    latch_prev = 0;
    clock = clock;
    clock_reads = 0;
  },
)

-- `rtc[k]`
unfoldable pub register : Rtc → ℕ → ℕ
register r k =
    if k == 0
    then r.seconds
    else if k == 1
    then r.minutes
    else if k == 2
    then r.hours
    else if k == 3
    then r.day_low
    else r.day_high

unfoldable pub set_register : Rtc → ℕ → ℕ → Rtc
set_register r k v =
    if k == 0
    then record r { seconds = v }
    else if k == 1
    then record r { minutes = v }
    else if k == 2
    then record r { hours = v }
    else if k == 3
    then record r { day_low = v }
    else record r { day_high = v }

-- The carries past the hours; `v` counts hours.
unfoldable pub carry_days : Rtc → ℕ → Rtc
carry_days r v =
    let days = r.day_low + r.day_high % 2 * 2 ^ 8 + v / 24 in
    let high = r.day_high / 2 * 2 % 2 ^ 8 + bits days 8 1 in
    record r {
      hours = v % 24;
      day_low = u8 days;
      day_high = if leb 0x200 days then (if bit high 7 == 1 then high else high + 0x80) else high;
    }

-- `v` counts hours, minutes, seconds: each returns where nothing is left to carry.
unfoldable pub carry_hours : Rtc → ℕ → Rtc
carry_hours r v = if ltb v 24 then record r { hours = v % 24 } else carry_days r v

unfoldable pub carry_minutes : Rtc → ℕ → Rtc
carry_minutes r v =
    let r' = record r { minutes = v % 60 } in
    if ltb v 60 then r' else carry_hours r' (v / 60 + r.hours)

unfoldable pub carry_seconds : Rtc → ℕ → Rtc
carry_seconds r v =
    let r' = record r { seconds = v % 60 } in
    if ltb v 60 then r' else carry_minutes r' (v / 60 + r.minutes)

-- The difference of the two times cast to 32 bits.
abbrev pub elapsed : ℕ → ℕ → ℕ
elapsed last now = u32 (u32 now + 2 ^ 32 - u32 last)

unfoldable pub advance_rtc : Rtc → ℕ → Rtc
advance_rtc r now =
    let r' = record r { last_time = now } in
    if ltb r.last_time now && bit r.day_high 6 == 0
    then (if elapsed r.last_time now == 0
        then r'
        else carry_seconds r' (u32 (r.seconds + elapsed r.last_time now)))
    else r'

-- A call of `std::time` and `AdvanceRtc`.
unfoldable pub advance_now : Rtc → Rtc
unfolding advance_rtc
advance_now r = advance_rtc (record r { clock_reads = r.clock_reads + 1 }) (r.clock r.clock_reads)

unfoldable pub latch_rtc : Rtc → Rtc
unfolding advance_now register
latch_rtc r = let r' = advance_now r in record r' { latched = register r' }

unfoldable pub write_enable : Board → Rtc → ℕ → Board × Rtc
unfolding flush_sram
write_enable board r value =
    let closes = not (value % 16 == 10) in
    (
      (if closes && r.ram_enable && board.sram_loaded && board.sram_dirty
          then record (flush_sram board) { sram_dirty = false }
          else board),
      record r { ram_enable = value % 16 == 10 },
    )

abbrev pub ram_index : Board → Rtc → ℕ → ℕ
ram_index board r addr =
    bit_and (addr % 2 ^ 13 + u32 (r.ram_select * 2 ^ 13)) (size_mask board.ram_size)

-- A000-BFFF, enabled: a RAM bank, or a register of the clock.
unfoldable pub write_ram : Board → Rtc → ℕ → ℕ → Board × Rtc
unfolding advance_now set_register
write_ram board r addr value =
    if ltb r.ram_select 4
    then (if board.ram_size == 0 then (board, r) else (
      record board { sram = update board.sram (ram_index board r addr) value; sram_dirty = true },
      r,
    ))
    else if ltb 4 (u8 (r.ram_select + 2 ^ 8 - 8)) || not r.has_rtc
    then (board, r)
    else (board, set_register (advance_now r) (r.ram_select - 8) value)

unfoldable pub write : Board → Rtc → ℕ → ℕ → Board × Rtc
unfolding write_enable write_ram latch_rtc
write board r addr value =
    let region = bits addr 13 3 in
    if region == 0
    then write_enable board r value
    else if bits addr 14 2 == 0
    then (board, record r { rom_bank = if value % 2 ^ 7 == 0 then 1 else value % 2 ^ 7 })
    else if ltb region 3
    then (board, record r { ram_select = value % 13 })
    else if bits addr 15 1 == 0
    then (
      board,
      (if value % 2 == 1 && r.latch_prev == 0 && r.has_rtc
          then record (latch_rtc r) { latch_prev = value % 2 }
          else record r { latch_prev = value % 2 }),
    )
    else if not (region == 5) || not r.ram_enable
    then (board, r)
    else write_ram board r addr value

-- The ROM bank is not masked to the ROM's size.
unfoldable pub read : Board → Rtc → ℕ → ℕ
read board r addr =
    if bits addr 15 1 == 0
    then board.rom
        (if bits addr 14 1 == 1 then addr % 2 ^ 14 + u32 (r.rom_bank * 2 ^ 14) else addr % 2 ^ 14)
    else if not (bits addr 13 3 == 5) || not r.ram_enable
    then 0xff
    else if ltb 3 r.ram_select
    then (if ltb (u8 (r.ram_select + 2 ^ 8 - 8)) 5 && r.has_rtc
        then r.latched (r.ram_select - 8)
        else 0xff)
    else if board.ram_size == 0
    then 0xff
    else board.sram (ram_index board r addr)
