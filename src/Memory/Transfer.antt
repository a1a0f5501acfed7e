-- ===== src/Memory/Transfer.antt =====
-- What a general transfer copies: a write to FF55 in carbon-pc/src/gb/Video.cpp.
mod Byte
use open_carbon.Base.{
  ℕ, zero, suc, ◌+◌, ◌-◌, ◌*◌, ◌/◌, ◌%◌, ◌^◌, ◌≤◌, ◌<◌, ◌≡◌, ◌≢◌, ◌⊎◌, inl, inr, refl, sym, ap, ◌∙◌,
  arith, Bool, true, false, Bool-cases, ◌||◌, ◌&&◌, not, ltb, ◌==◌, bit, bits, u8, u16, Bytes,
  update, for_range,
}
use open_carbon.State.{Machine, Video}
use open_carbon.Cart.{cart_read}
use open_carbon.Memory.Wram.{wram_read}
use open_carbon.Memory.Vram.{vram_index, vram_write, decode_tile_row}
use open_carbon.Memory.Map.{
  dma_source_read, dma_byte, dma_copy16, gdma_blocks, hdma_start, map_write, write8_at, write8,
  high_write, io_write, video_io_write,
}
use open_carbon.Memory.Transfer.Byte.{
  Copied, Copied-start, Copied-count, source_read-registers, dma_byte-Copied,
}

module _ (depth : ℕ) (m : Machine) (low : 0x8000 ≤ m.video.hdma_dst) where
  dma_bytes-Copied :
      (n i k : ℕ) (t : Machine)
      → m.video.hdma_dst + (k + n) ≤ 0xa000
      → Copied m k t
      → Copied m (k + n) (for_range n i (λ _ s. dma_byte (write8_at (suc depth)) s) t)
  unfolding for_range
  dma_bytes-Copied zero i k t high c = Copied-count m t k (k + 0) (omega arith) c
  dma_bytes-Copied (suc n) i k t high c = Copied-count m _ (k + 1 + n) (k + suc n) (omega arith) (
      dma_bytes-Copied n (i + 1) (k + 1) _ (omega arith)
        (dma_byte-Copied depth m low k t (omega arith) c))

  dma_copy16-Copied :
      (k : ℕ) (t : Machine)
      → m.video.hdma_dst + (k + 16) ≤ 0xa000
      → Copied m k t
      → Copied m (k + 16) (dma_copy16 (write8_at (suc depth)) t)
  unfolding dma_copy16
  dma_copy16-Copied k t high c = dma_bytes-Copied 16 0 k t high c

  -- The blocks of a general transfer: one more than the length register says.
  gdma_blocks-Copied :
      (left block : ℕ) (t : Machine)
      → m.video.hdma_length < block + left
      → block ≤ m.video.hdma_length
      → m.video.hdma_length < 2 ^ 7
      → m.video.hdma_dst + 16 * (m.video.hdma_length + 1) ≤ 0xa000
      → Copied m (16 * block) t
      → Copied m (16 * (m.video.hdma_length + 1)) (gdma_blocks (write8_at (suc depth)) left block t)
  unfolding gdma_blocks
  gdma_blocks-Copied zero block t short more seven high c = absurd (omega arith)
  gdma_blocks-Copied (suc left) block t short more seven high c =
      let c' = dma_copy16-Copied (16 * block) t (omega arith) c in
      let test = ltb block ((dma_copy16 (write8_at (suc depth)) t).video.hdma_length % 2 ^ 7) in
      elim (Bool-cases test) [
        | inl on ↦ rw on (
            gdma_blocks-Copied left (block + 1) _ (omega arith) (ground (arith, on, c'.length))
              seven high (Copied-count m _ (16 * block + 16) (16 * (block + 1)) (omega arith) c'))
        | inr off ↦ rw off (
            Copied-count m _ (16 * block + 16) (16 * (m.video.hdma_length + 1))
              (ground (arith, off, c'.length)) c')
      ]

-- The end of a general transfer of `n` bytes that started in `m`.
pub record Transferred (m : Machine) (n : ℕ) (t : Machine) : Type 0 where
  pub stored :
      (i : ℕ)
      → i < n
      → t.screen.vram (vram_index m m.video.hdma_dst + i)
        ≡ dma_source_read m ((m.video.hdma_src + i) % 2 ^ 16)
  pub kept :
      (j : ℕ)
      → (j < vram_index m m.video.hdma_dst) ⊎ (vram_index m m.video.hdma_dst + n ≤ j)
      → t.screen.vram j ≡ m.screen.vram j
  pub dst : t.video.hdma_dst ≡ m.video.hdma_dst + n
  pub src : t.video.hdma_src ≡ (m.video.hdma_src + n) % 2 ^ 16
  pub length : t.video.hdma_length ≡ 0xff
  pub active : t.video.hdma_active ≡ 0

hdma_start-Transferred :
    (depth : ℕ) (m : Machine) (value : ℕ)
    → value < 2 ^ 7
    → m.video.hdma_active ≡ 0
    → 0x8000 ≤ m.video.hdma_dst
    → m.video.hdma_dst + 16 * (value + 1) ≤ 0xa000
    → m.video.hdma_src < 2 ^ 16
    → 1 ≤ depth
    → Transferred m (16 * (value + 1)) (hdma_start (write8_at depth) m value)
unfolding hdma_start vram_index
hdma_start-Transferred zero m value seven idle low high source room = absurd (omega arith)
hdma_start-Transferred (suc depth) m value seven idle low high source room =
    let m' = record m { video = record (m.video) { hdma_length = value % 2 ^ 7 } } in
    let general : (bit value 7 == 0 && m.video.hdma_active == 0) ≡ true = ground arith in
    let same : value % 2 ^ 7 ≡ value = omega arith in
    let c = Copied-count m' _ (16 * (value % 2 ^ 7 + 1)) (16 * (value + 1)) (omega arith) (
      gdma_blocks-Copied depth m' low 128 0 m' (omega arith) (omega arith) (omega arith)
        (omega (arith, same)) (Copied-count m' m' 0 (16 * 0) refl (Copied-start m' source))) in
    rw general (record {
      stored = λ i below. c.stored i below ∙ source_read-registers m _ _;
      kept = c.kept;
      dst = c.dst;
      src = c.src;
      length = refl;
      active = refl;
    })

-- A write to FF55 of a value below 0x80 with no transfer active, whose destination register is at
-- least 0x8000, whose 16 * (value + 1) bytes end at 0xA000 or below, whose source register has 16 bits,
-- and with room for a nested write: afterwards these bytes of the video memory are what the source
-- addresses, counted modulo 2 ^ 16, held before; all other bytes of it are kept; the two registers have
-- moved on by the count, the length register is 0xff, and no transfer is active.
pub write8-Transferred :
    (m : Machine) (value : ℕ)
    → value < 2 ^ 7
    → m.video.hdma_active ≡ 0
    → 0x8000 ≤ m.video.hdma_dst
    → m.video.hdma_dst + 16 * (value + 1) ≤ 0xa000
    → m.video.hdma_src < 2 ^ 16
    → 1 ≤ m.host_stack
    → Transferred m (16 * (value + 1)) (write8 m 0xff55 value)
unfolding write8 write8_at map_write high_write io_write video_io_write
write8-Transferred m value seven idle low high source room =
    hdma_start-Transferred m.host_stack m value seven idle low high source room
