-- ===== src/Memory/Wram.antt =====
-- `WramRead` and `WramWrite` of carbon-pc/src/gb/Memory.cpp.
use open_carbon.Base.{ℕ, ◌+◌, ◌*◌, ◌%◌, ◌^◌, ltb, ◌==◌, if◌then◌else◌, update, u16, u32, bits}
use open_carbon.State.{Machine}

-- The index into `cpu.wram`: the upper half of each 8 KB is the bank that FF70 selects.
unfoldable pub wram_index : Machine → ℕ → ℕ
wram_index m addr = u16 (
    if ltb 0xfff (addr % 2 ^ 13) then addr % 2 ^ 12 + u32 (m.wram_bank * 2 ^ 12) else addr % 2 ^ 13)

-- C000-FDFF
abbrev pub in_wram : ℕ → ℕ
in_wram addr = bits (u32 (addr + 0x4000)) 9 7

unfoldable pub wram_read : Machine → ℕ → ℕ
unfolding wram_index
wram_read m addr =
    if ltb (in_wram addr) 0x1f
    then m.wram (wram_index m addr)
    else if u16 addr == 0xff70
    then m.wram_bank
    else 0xffff_ffff

unfoldable pub wram_write : Machine → ℕ → ℕ → Machine
unfolding wram_index
wram_write m addr value =
    if ltb 0x1e (in_wram addr)
    then (if u16 addr == 0xff70
        then record m { wram_bank = if value % 8 == 0 then 1 else value % 8 }
        else m)
    else record m { wram = update m.wram (wram_index m addr) value }
