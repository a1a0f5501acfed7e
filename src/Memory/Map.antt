-- ===== src/Memory/Map.antt =====
-- `Read8`, `Write8`, `Read16`, `Write16` of carbon-pc/src/gb/Memory.cpp, `ApuRead` and `ApuWrite`
-- of carbon-pc/src/gb/Audio.cpp, and the transfers of carbon-pc/src/gb/Video.cpp.
-- A write to FF55 copies memory through `Write8` again, so `Write8` has a depth: the number of its
-- calls that the host's stack can hold inside one another.
use open_carbon.Base.{
  ℕ, zero, suc, ◌+◌, ◌-◌, ◌*◌, ◌/◌, ◌%◌, ◌^◌, true, ltb, leb, ◌==◌, not, ◌&&◌, ◌||◌, ◌∷◌,
  if◌then◌else◌, update, for_range, bit_and, bit_or, u8, u16, u32, bit, bits,
}
use open_carbon.State.{Machine, ApuCall, write_register}
use open_carbon.Cart.{cart_read, cart_write}
use open_carbon.Memory.Wram.{wram_read, wram_write}
use open_carbon.Memory.Vram.{vram_read, vram_write, oam_byte, set_oam_byte}
use open_carbon.Memory.Timer.{timer_read, timer_write}
use open_carbon.Memory.VideoIo.{video_io_read, video_register_write, expand_bgp}

unfoldable pub apu_read : Machine → ℕ → ℕ
apu_read m addr = u8 (m.apu.read_register m.apu.calls m.apu_time addr)

unfoldable pub apu_call : Machine → ApuCall → Machine
apu_call m call = record m { apu = record (m.apu) { calls = call ∷ m.apu.calls } }

unfoldable pub apu_write : Machine → ℕ → ℕ → Machine
unfolding apu_call
apu_write m addr value = apu_call m (write_register m.apu_time addr value)

-- FF00: the buttons of the group that is selected.
unfoldable pub joypad_read : Machine → ℕ
joypad_read m =
    let inv = 2 ^ 32 - 1 - m.joyp_select in
    if bit inv 4 == 0
    then u8 (bit_and (bit_or (m.joypad_buttons / 2 ^ 4) 0xffff_fff0) inv)
    else if bit inv 5 == 1
    then u8 inv
    else u8 (bit_and (bit_or m.joypad_buttons 0xffff_fff0) inv)

-- FF00-FF7F
unfoldable pub io_read : Machine → ℕ → ℕ
io_read m addr =
    let group = bits addr 4 4 in
    if group == 0
    then (if leb 4 (addr % 16) && ltb (addr % 16) 8
        then timer_read m.timer (u16 addr)
        else if not (addr % 16 == 0)
        then 0
        else joypad_read m)
    else if ltb group 4
    then apu_read m (u16 addr)
    else if ltb group 7
    then video_io_read m (u16 addr)
    else if group == 7
    then u8 (wram_read m addr)
    else 0

-- F000-FFFF
unfoldable pub high_read : Machine → ℕ → ℕ
high_read m addr =
    let page = bits addr 8 4 in
    if page == 0xe
    then oam_byte m.screen (u16 addr % 2 ^ 8)
    else if not (page == 0xf)
    then u8 (wram_read m addr)
    else if u16 addr == 0xff0f
    then m.ints.int_flags
    else if u16 addr == 0xffff
    then m.ints.int_enable
    else if leb 0x1ff (bits addr 7 9)
    then m.screen.hram (u16 addr % 2 ^ 7)
    else io_read m addr

-- The casts in `read8` and `read16` are those of their return types.
unfoldable pub map_read : Machine → ℕ → ℕ
map_read m addr =
    let nibble = bits addr 12 4 in
    if nibble == 8 || nibble == 9
    then vram_read m addr
    else if nibble == 0xc || nibble == 0xd || nibble == 0xe
    then u8 (wram_read m addr)
    else if nibble == 0xf
    then high_read m addr
    else cart_read m addr

unfoldable pub read8 : Machine → ℕ → ℕ
read8 m addr = u8 (map_read m addr)

unfoldable pub read16 : Machine → ℕ → ℕ
read16 m addr = u16 (read8 m addr + read8 m (u32 (addr + 1)) * 2 ^ 8)

-- Anything below C000 goes through the cartridge.
unfoldable pub dma_source_read : Machine → ℕ → ℕ
dma_source_read m addr = if ltb (bits addr 14 2) 3 then cart_read m addr else u8 (wram_read m addr)

-- FF46: 160 bytes through the full memory map, which the copy itself changes.
unfoldable pub oam_dma_byte : ℕ → ℕ → Machine → Machine
oam_dma_byte value i m =
    let src = value * 0x100 + i in
    let v = read8 m src in
    record m {
      screen = record (m.screen) {
        oam = update m.screen.oam i v;
        oam_mirror = update m.screen.oam_mirror (src % 4 + bits src 2 6 * 4) v;
      };
    }

unfoldable pub oam_dma : Machine → ℕ → Machine
oam_dma m value = for_range 0xa0 0 (oam_dma_byte value) m

-- The functions below write through `w`, which stands for `Write8` one call further in.
module _ (w : Machine → ℕ → ℕ → Machine) where
  unfoldable pub dma_byte : Machine → Machine
  dma_byte m =
      let m' = w m m.video.hdma_dst (dma_source_read m m.video.hdma_src) in
      record m' {
        video = record (m'.video) {
          hdma_dst = u16 (m'.video.hdma_dst + 1);
          hdma_src = u16 (m'.video.hdma_src + 1);
        };
      }

  unfoldable pub dma_copy16 : Machine → Machine
  dma_copy16 m = for_range 16 0 (λ _ t. dma_byte t) m

  -- The blocks of a transfer: as many as the length register says after each of them.
  unfoldable pub gdma_blocks : ℕ → ℕ → Machine → Machine
  gdma_blocks zero block m = m
  gdma_blocks (suc left) block m =
      let m' = dma_copy16 m in
      let rest = gdma_blocks left (block + 1) m' in
      if ltb block (m'.video.hdma_length % 2 ^ 7) then rest else m'

  -- FF55. The length has seven bits, so a transfer has at most 128 blocks.
  unfoldable pub hdma_start : Machine → ℕ → Machine
  hdma_start m value =
      let v = record (m.video) { hdma_length = value % 2 ^ 7 } in
      if bit value 7 == 0 && v.hdma_active == 0
      then (let t = gdma_blocks 128 0 (record m { video = v }) in
          record t { video = record (t.video) { hdma_length = 0xff; hdma_active = 0 } })
      else if not (v.hdma_active == 0) && bit value 7 == 0
      then record m { video = record v { hdma_active = 0 } }
      else record m { video = record v { hdma_active = 1 } }

  unfoldable pub video_io_write : Machine → ℕ → ℕ → Machine
  video_io_write m addr value =
      if addr == 0xff46
      then oam_dma m value
      else if addr == 0xff47
      then record m {
        video = record (m.video) { bgp = value };
        screen = record (m.screen) { dmg_palette_rgb = expand_bgp m.screen.dmg_palette_rgb value };
      }
      else if addr == 0xff4d
      then record m { key1 = value }
      else if addr == 0xff55
      then hdma_start m value
      else record m { video = video_register_write m.video addr value }

  -- FF00-FF7F
  unfoldable pub io_write : Machine → ℕ → ℕ → Machine
  io_write m addr value =
      let group = bits addr 4 4 in
      if group == 0 && leb 4 (addr % 16) && ltb (addr % 16) 8
      then record m { timer = timer_write m.timer (u16 addr) value }
      else if group == 0 && addr % 16 == 0
      then record m { joyp_select = value }
      else if ltb group 4
      then apu_write m (u16 addr) value
      else if ltb group 7
      then video_io_write m (u16 addr) value
      else if group == 7
      then wram_write m addr value
      else m

  -- F000-FFFF
  unfoldable pub high_write : Machine → ℕ → ℕ → Machine
  high_write m addr value =
      let page = bits addr 8 4 in
      if page == 0xe
      then record m { screen = set_oam_byte m.screen (u16 addr % 2 ^ 8) value }
      else if not (page == 0xf)
      then wram_write m addr value
      else if u16 addr == 0xff0f
      then record m { ints = record (m.ints) { int_flags = value } }
      else if u16 addr == 0xffff
      then record m { ints = record (m.ints) { int_enable = value } }
      else if leb 0x1ff (bits addr 7 9)
      then record m {
        screen = record (m.screen) { hram = update m.screen.hram (u16 addr % 2 ^ 7) value };
      }
      else io_write m addr value

  unfoldable pub map_write : Machine → ℕ → ℕ → Machine
  map_write m addr value =
      let nibble = bits addr 12 4 in
      if nibble == 8 || nibble == 9
      then vram_write m addr value
      else if nibble == 0xc || nibble == 0xd || nibble == 0xe
      then wram_write m addr value
      else if nibble == 0xf
      then high_write m addr value
      else cart_write m addr value

-- `Write8` with room for `depth` calls inside one another.
unfoldable pub write8_at : ℕ → Machine → ℕ → ℕ → Machine
write8_at zero m addr value = record m { overflowed = true }
write8_at (suc depth) m addr value = map_write (write8_at depth) m addr value

unfoldable pub write8 : Machine → ℕ → ℕ → Machine
unfolding write8_at
write8 m addr value = write8_at (suc m.host_stack) m addr value

unfoldable pub write16 : Machine → ℕ → ℕ → Machine
write16 m addr value =
    let m' = write8 m addr (u8 value) in write8 m' (u32 (addr + 1)) (u8 (value / 2 ^ 8))
