-- ===== src/Memory/Vram.antt =====
-- `VramRead` and `VramWrite` of carbon-pc/src/gb/Video.cpp, and `CoreByte` at `kOamOffset`.
use open_carbon.Base.{
  ℕ, ◌+◌, ◌-◌, ◌*◌, ◌/◌, ◌%◌, ◌^◌, ltb, ◌==◌, ◌&&◌, if◌then◌else◌, update, for_range, u32, bit,
  bits,
}
use open_carbon.State.{Machine, Screen}

-- `oam` has 0xa0 bytes and `hram` follows it: an offset past the end falls into `hram`.
unfoldable pub oam_byte : Screen → ℕ → ℕ
oam_byte s i = if ltb i 0xa0 then s.oam i else s.hram (i - 0xa0)

unfoldable pub set_oam_byte : Screen → ℕ → ℕ → Screen
set_oam_byte s i value =
    if ltb i 0xa0
    then record s { oam = update s.oam i value }
    else record s { hram = update s.hram (i - 0xa0) value }

-- The index into `core.vram`: FF4F selects the bank.
unfoldable pub vram_index : Machine → ℕ → ℕ
vram_index m addr = addr % 2 ^ 13 + u32 (m.video.vbk * 2 ^ 13)

unfoldable pub vram_read : Machine → ℕ → ℕ
unfolding vram_index oam_byte
vram_read m addr =
    if bits addr 13 3 == 4
    then m.screen.vram (vram_index m addr)
    else if ltb 0x7f4 (bits addr 5 11)
    then 0
    else oam_byte m.screen (addr % 2 ^ 8)

-- The row of 8 pixels that the two bytes of `pair` hold, always of bank 0.
unfoldable pub decode_tile_row : Screen → ℕ → Screen
decode_tile_row s addr =
    let pair = addr % 2 ^ 13 / 2 * 2 in
    let lo = s.vram pair in
    let hi = s.vram (pair + 1) in
    let p = bits addr 1 3 * 8 + pair / 2 ^ 4 * 0x40 in
    record s {
      dmg_tile_cache =
          for_range 8 0 (λ n t. update t (p + n) (bit hi (7 - n) * 2 + bit lo (7 - n)))
            s.dmg_tile_cache;
    }

unfoldable pub vram_write : Machine → ℕ → ℕ → Machine
unfolding vram_index decode_tile_row
vram_write m addr value =
    let page = bits addr 12 4 in
    let stored = record (m.screen) { vram = update m.screen.vram (vram_index m addr) value } in
    if page / 2 == 4
    then (if ltb 0x12 (bits addr 11 5)
        then record m {
          screen = record stored {
            dmg_tile_map =
                update m.screen.dmg_tile_map (addr % 2 ^ 10 + bits addr 10 1 * 0x4000) value;
          };
        }
        else record m { screen = decode_tile_row stored addr })
    else if page == 0xf && ltb ((addr + 0x200) % 2 ^ 16) 0xa0
    then record m {
      screen = record (m.screen) {
        oam = update m.screen.oam (addr % 2 ^ 8) value;
        oam_mirror = update m.screen.oam_mirror (addr % 4 + bits addr 2 6 * 4) value;
      };
    }
    else m
