-- ===== src/Memory/Frame.antt =====
-- What a write through the memory map of carbon-pc/src/gb/Memory.cpp leaves alone, whatever the
-- address, also where it copies memory or writes in turn.
use open_carbon.Base.{
  ℕ, zero, suc, ◌+◌, ◌%◌, ◌^◌, ◌≡◌, arith, ltb, u8, u16, Bool-cases, inl, inr, for_range_keeps,
}
use open_carbon.State.{
  Machine, Video, Mbc1Globals, Mbc5Globals, Cartridge, rom_only, mbc1, mbc3, mbc5, system_only,
}
use open_carbon.Cart.{cart_write, write_by}
use open_carbon.Memory.Wram.{wram_write}
use open_carbon.Memory.Vram.{vram_write, set_oam_byte}
use open_carbon.Memory.Map.{
  dma_source_read, apu_write, oam_dma, oam_dma_byte, dma_byte, dma_copy16, gdma_blocks, hdma_start,
  video_io_write, io_write, high_write, map_write, write8_at, write8, write16,
}

-- The fields that no write reaches: the CPU's registers, the interrupt master flags, the LCD's own
-- counters and the drawn image, the buttons and the sound clock.
pub record Untouched (m m' : Machine) : Type 0 where
  pub regs : m'.regs ≡ m.regs
  pub ime : m'.ints.ime ≡ m.ints.ime
  pub ime_request : m'.ints.ime_request ≡ m.ints.ime_request
  pub ei_delay : m'.ints.ei_delay ≡ m.ints.ei_delay
  pub lcd_tick_accum : m'.screen.lcd_tick_accum ≡ m.screen.lcd_tick_accum
  pub lcd_mode : m'.screen.lcd_mode ≡ m.screen.lcd_mode
  pub frame_done : m'.screen.frame_done ≡ m.screen.frame_done
  pub framebuffer : m'.screen.framebuffer ≡ m.screen.framebuffer
  pub is_cgb : m'.is_cgb ≡ m.is_cgb
  pub double_speed : m'.double_speed ≡ m.double_speed
  pub joypad_buttons : m'.joypad_buttons ≡ m.joypad_buttons
  pub apu_time : m'.apu_time ≡ m.apu_time
  pub host_stack : m'.host_stack ≡ m.host_stack

pub Untouched-refl : (m : Machine) → Untouched m m
Untouched-refl m = ground arith

pub Untouched-trans : (m m' m'' : Machine) → Untouched m m' → Untouched m' m'' → Untouched m m''
Untouched-trans m m' m'' p q = ground arith

wram_write-Untouched : (m : Machine) (addr value : ℕ) → Untouched m (wram_write m addr value)
unfolding wram_write
wram_write-Untouched m addr value = ground arith

vram_write-Untouched : (m : Machine) (addr value : ℕ) → Untouched m (vram_write m addr value)
unfolding vram_write
vram_write-Untouched m addr value = ground arith

set_cart-Untouched :
    (m : Machine) (cart' : Cartridge) (g1 : Mbc1Globals) (g5 : Mbc5Globals)
    → Untouched m (record m { cart = cart'; mbc1_globals = g1; mbc5_globals = g5 })
set_cart-Untouched m cart' g1 g5 = ground arith

write_by-Untouched :
    (m : Machine) (cart : Cartridge) (addr value : ℕ) → Untouched m (write_by m cart addr value)
unfolding write_by
write_by-Untouched m (rom_only board) addr value = Untouched-refl m
write_by-Untouched m (mbc1 board) addr value = set_cart-Untouched m _ _ m.mbc5_globals
write_by-Untouched m (mbc3 board r) addr value =
    set_cart-Untouched m _ m.mbc1_globals m.mbc5_globals
write_by-Untouched m (mbc5 board) addr value = set_cart-Untouched m _ m.mbc1_globals _
write_by-Untouched m system_only addr value = Untouched-refl m

oam_dma-Untouched : (m : Machine) (value : ℕ) → Untouched m (oam_dma m value)
unfolding oam_dma oam_dma_byte
oam_dma-Untouched m value =
    for_range_keeps (Untouched m) 0xa0 0 (oam_dma_byte value) m
      (λ k t h. Untouched-trans m t _ h (ground arith)) (Untouched-refl m)

-- The writes that one level of nesting makes, if those of the next level are such.
module _ (w : Machine → ℕ → ℕ → Machine)
    (inner : (m : Machine) (addr value : ℕ) → Untouched m (w m addr value)) where
  dma_byte-Untouched : (m : Machine) → Untouched m (dma_byte w m)
  unfolding dma_byte
  dma_byte-Untouched m =
      Untouched-trans m (w m m.video.hdma_dst (dma_source_read m m.video.hdma_src)) _ (inner m _ _)
        (ground arith)

  pub dma_copy16-Untouched : (m : Machine) → Untouched m (dma_copy16 w m)
  unfolding dma_copy16
  dma_copy16-Untouched m =
      for_range_keeps (Untouched m) 16 0 (λ _ t. dma_byte w t) m
        (λ k t h. Untouched-trans m t _ h (dma_byte-Untouched t)) (Untouched-refl m)

  gdma_blocks-Untouched : (left block : ℕ) (m : Machine) → Untouched m (gdma_blocks w left block m)
  unfolding gdma_blocks
  gdma_blocks-Untouched zero block m = Untouched-refl m
  gdma_blocks-Untouched (suc left) block m =
      let m' = dma_copy16 w m in
      let first = dma_copy16-Untouched m in
      elim (Bool-cases (ltb block (m'.video.hdma_length % 2 ^ 7))) [
        | inl more ↦
            rw more (Untouched-trans m m' _ first (gdma_blocks-Untouched left (block + 1) m'))
        | inr done ↦ rw done first
      ]

  set_video-Untouched : (m : Machine) (v : Video) → Untouched m (record m { video = v })
  set_video-Untouched m v = ground arith

  hdma_start-Untouched : (m : Machine) (value : ℕ) → Untouched m (hdma_start w m value)
  unfolding hdma_start
  hdma_start-Untouched m value =
      let start = record m { video = record (m.video) { hdma_length = value % 2 ^ 7 } } in
      ground (
        arith,
        Untouched-trans m start (gdma_blocks w 128 0 start) (set_video-Untouched m start.video)
            (gdma_blocks-Untouched 128 0 start),
      )

  video_io_write-Untouched :
      (m : Machine) (addr value : ℕ) → Untouched m (video_io_write w m addr value)
  unfolding video_io_write
  video_io_write-Untouched m addr value =
      ground (arith, oam_dma-Untouched m value, hdma_start-Untouched m value)

  io_write-Untouched : (m : Machine) (addr value : ℕ) → Untouched m (io_write w m addr value)
  unfolding io_write apu_write
  io_write-Untouched m addr value =
      ground (arith, video_io_write-Untouched m (u16 addr) value, wram_write-Untouched m addr value)

  high_write-Untouched : (m : Machine) (addr value : ℕ) → Untouched m (high_write w m addr value)
  unfolding high_write set_oam_byte
  high_write-Untouched m addr value =
      ground (arith, io_write-Untouched m addr value, wram_write-Untouched m addr value)

  map_write-Untouched : (m : Machine) (addr value : ℕ) → Untouched m (map_write w m addr value)
  unfolding map_write cart_write
  map_write-Untouched m addr value = ground (
    arith,
    vram_write-Untouched m addr value,
    wram_write-Untouched m addr value,
    high_write-Untouched m addr value,
    write_by-Untouched m m.cart addr value,
  )

write8_at-Untouched :
    (depth : ℕ) (m : Machine) (addr value : ℕ) → Untouched m (write8_at depth m addr value)
unfolding write8_at
write8_at-Untouched zero m addr value = ground arith
write8_at-Untouched (suc depth) m addr value =
    map_write-Untouched (write8_at depth) (write8_at-Untouched depth) m addr value

-- No write through the memory map, at any address and with any nesting of transfers, changes the
-- CPU's registers, the master interrupt flags, the LCD's counters, the image, the buttons, the
-- console's mode or the sound clock.
pub write8-Untouched : (m : Machine) (addr value : ℕ) → Untouched m (write8 m addr value)
unfolding write8
write8-Untouched m addr value = write8_at-Untouched (suc m.host_stack) m addr value

pub write16-Untouched : (m : Machine) (addr value : ℕ) → Untouched m (write16 m addr value)
unfolding write16
write16-Untouched m addr value =
    Untouched-trans m (write8 m addr (u8 value)) _ (write8-Untouched m addr (u8 value))
      (write8-Untouched _ _ _)
