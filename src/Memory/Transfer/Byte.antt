-- ===== src/Memory/Transfer/Byte.antt =====
-- One byte of a general transfer of carbon-pc/src/gb/Video.cpp, after the bytes copied before it.
use open_carbon.Base.{
  ℕ, suc, ◌+◌, ◌/◌, ◌%◌, ◌^◌, ◌≤◌, ◌<◌, ◌≡◌, ◌≢◌, ◌⊎◌, inl, inr, refl, sym, ap, ◌∙◌, arith, true,
  false, Bool-cases, ◌||◌, ltb, ◌==◌, bits, Bytes, update,
}
use open_carbon.State.{Machine, Video}
use open_carbon.Cart.{cart_read}
use open_carbon.Memory.Wram.{wram_read}
use open_carbon.Memory.Vram.{vram_index, vram_write, decode_tile_row}
use open_carbon.Memory.Map.{dma_source_read, dma_byte, map_write, write8_at}

-- A write to the video memory changes one byte of it, and nothing that a transfer reads.
record Stored (m : Machine) (addr value : ℕ) (m' : Machine) : Type 0 where
  vram : m'.screen.vram ≡ update m.screen.vram (vram_index m addr) value
  video : m'.video ≡ m.video
  source : (a : ℕ) → dma_source_read m' a ≡ dma_source_read m a
  sound : m'.overflowed ≡ m.overflowed

vram_write-Stored :
    (m : Machine) (addr value : ℕ)
    → 0x8000 ≤ addr
    → addr < 0xa000
    → Stored m addr value (vram_write m addr value)
unfolding vram_write vram_index decode_tile_row dma_source_read cart_read wram_read
vram_write-Stored m addr value low high =
    let video_page : (bits addr 12 4 / 2 == 4) ≡ true = ground arith in
    elim (Bool-cases (ltb 0x12 (bits addr 11 5))) [
      | inl map ↦
          rw (video_page, map)
            (record { vram = refl; video = refl; source = λ a. refl; sound = refl })
      | inr tile ↦
          rw (video_page, tile)
            (record { vram = refl; video = refl; source = λ a. refl; sound = refl })
    ]

write8_at-Stored :
    (depth : ℕ) (m : Machine) (addr value : ℕ)
    → 0x8000 ≤ addr
    → addr < 0xa000
    → Stored m addr value (write8_at (suc depth) m addr value)
unfolding write8_at map_write
write8_at-Stored depth m addr value low high =
    let vram : (bits addr 12 4 == 8 || bits addr 12 4 == 9) ≡ true = ground arith in
    rw vram (vram_write-Stored m addr value low high)

-- `k` bytes of a transfer that started in `m`: they stand in the video memory in the order of their
-- sources, and all else is as it was.
pub record Copied (m : Machine) (k : ℕ) (t : Machine) : Type 0 where
  pub dst : t.video.hdma_dst ≡ m.video.hdma_dst + k
  pub src : t.video.hdma_src ≡ (m.video.hdma_src + k) % 2 ^ 16
  pub length : t.video.hdma_length ≡ m.video.hdma_length
  pub bank : t.video.vbk ≡ m.video.vbk
  pub same_source : (a : ℕ) → dma_source_read t a ≡ dma_source_read m a
  pub stored :
      (i : ℕ)
      → i < k
      → t.screen.vram (vram_index m m.video.hdma_dst + i)
        ≡ dma_source_read m ((m.video.hdma_src + i) % 2 ^ 16)
  pub kept :
      (j : ℕ)
      → (j < vram_index m m.video.hdma_dst) ⊎ (vram_index m m.video.hdma_dst + k ≤ j)
      → t.screen.vram j ≡ m.screen.vram j

pub Copied-start : (m : Machine) → m.video.hdma_src < 2 ^ 16 → Copied m 0 m
Copied-start m h = record {
  dst = omega arith;
  src = omega arith;
  length = refl;
  bank = refl;
  same_source = λ a. refl;
  stored = λ i below. absurd (omega arith);
  kept = λ j outside. refl;
}

-- The places that follow one another in the video memory.
vram_index-add :
    (m t : Machine) (k : ℕ)
    → 0x8000 ≤ m.video.hdma_dst
    → m.video.hdma_dst + k < 0xa000
    → t.video.vbk ≡ m.video.vbk
    → vram_index t (m.video.hdma_dst + k) ≡ vram_index m m.video.hdma_dst + k
unfolding vram_index
vram_index-add m t k low high same = rw same (omega arith)

lt-cases : (i k : ℕ) → i < k + 1 → (i < k) ⊎ (i ≡ k)
lt-cases i k below = omega arith

-- A byte store at and beside its place.
update-same : (f : Bytes) (i j v : ℕ) → i ≡ j → update f i v j ≡ v
update-same f i j v same = let here : (i == j) ≡ true = ground arith in rw here refl

update-other : (f : Bytes) (i j v : ℕ) → i ≢ j → update f i v j ≡ f j
update-other f i j v other = let elsewhere : (i == j) ≡ false = ground arith in rw elsewhere refl

-- The destination and the source are registers of the transfer, which a source read does not see.
pub source_read-registers :
    (m : Machine) (v : Video) (a : ℕ)
    → dma_source_read (record m { video = v }) a ≡ dma_source_read m a
unfolding dma_source_read cart_read wram_read
source_read-registers m v a = refl

pub Copied-count : (m t : Machine) (j k : ℕ) → j ≡ k → Copied m j t → Copied m k t
Copied-count m t j k same c = rw (sym same) c

module _ (depth : ℕ) (m : Machine) (low : 0x8000 ≤ m.video.hdma_dst) where
  pub dma_byte-Copied :
      (k : ℕ) (t : Machine)
      → m.video.hdma_dst + k < 0xa000
      → Copied m k t
      → Copied m (k + 1) (dma_byte (write8_at (suc depth)) t)
  unfolding dma_byte
  dma_byte-Copied k t high c =
      let value = dma_source_read t t.video.hdma_src in
      let t' = write8_at (suc depth) t t.video.hdma_dst value in
      let s =
        write8_at-Stored depth t t.video.hdma_dst value (omega (arith, c.dst))
          (omega (arith, c.dst)) in
      let place = ap (vram_index t) c.dst ∙ vram_index-add m t k low high c.bank in
      let copied = c.same_source t.video.hdma_src ∙ ap (dma_source_read m) c.src in
      let at = λ (j : ℕ). ap (λ f. f j) s.vram in
      let dst = ap (λ v. v.hdma_dst) s.video ∙ c.dst in
      let src = ap (λ v. v.hdma_src) s.video ∙ c.src in
      record {
        dst = omega (arith, dst);
        src = omega (arith, src);
        length = ap (λ v. v.hdma_length) s.video ∙ c.length;
        bank = ap (λ v. v.vbk) s.video ∙ c.bank;
        same_source = λ a. source_read-registers t' _ a ∙ (s.source a ∙ c.same_source a);
        stored = λ i below. at _ ∙ elim (lt-cases i k below) [
          | inl before ↦
              update-other t.screen.vram _ _ value (λ e. omega (arith, e, place, before))
              ∙ c.stored i before
          | inr last ↦
              update-same t.screen.vram _ _ value (omega (arith, place, last))
              ∙ (copied ∙ ap (λ n. dma_source_read m ((m.video.hdma_src + n) % 2 ^ 16)) (sym last))
        ];
        kept = λ j outside.
            at j
            ∙ (update-other t.screen.vram _ j value (λ e. omega (arith, e, place, outside))
                ∙ c.kept j (omega (arith, outside)));
      }
