-- ===== src/System/StateBlocks.antt =====
-- The blocks of a save state: `StateBlock` and `StateBlocks` of carbon-pc/src/gb/System.cpp, and how
-- each is written and read.
use open_carbon.Base.{
  ℕ, ◌+◌, ◌-◌, ◌*◌, ◌/◌, ◌%◌, ◌^◌, List, [], ◌∷◌, Bytes, ltb, leb, ◌&&◌, if◌then◌else◌, get_or, u8,
}
use open_carbon.State.{Machine}

-- `StateBlock`: a range of the globals' bytes and where it stands in the file. `view` reads the range
-- and `put` writes it.
pub record Block : Type 0 where
  pub offset : ℕ
  pub size : ℕ
  pub view : Machine → Bytes
  pub put : Bytes → Machine → Machine

-- A 16-bit and a 32-bit field as its bytes, and the fields from them.
abbrev pub high_byte : ℕ → ℕ
high_byte v = v / 2 ^ 8 % 2 ^ 8

abbrev pub word_at : Bytes → ℕ → ℕ
word_at g i = g i + g (i + 1) * 2 ^ 8

abbrev pub int_at : Bytes → ℕ → ℕ
int_at g i = word_at g i + word_at g (i + 2) * 2 ^ 16

-- The first `size` bytes of an array.
abbrev pub filled_to : ℕ → Bytes → Bytes → Bytes
filled_to size g old i = if ltb i size then g i else old i

-- `&cpu.f`, 0x0c bytes
abbrev pub registers_block : Block
registers_block = record {
  offset = 0x32;
  size = 0x0c;
  view = λ m i.
      get_or
        (m.regs.f
          ∷ m.regs.a
          ∷ m.regs.c
          ∷ m.regs.b
          ∷ m.regs.e
          ∷ m.regs.d
          ∷ m.regs.l
          ∷ m.regs.h
          ∷ u8 m.regs.sp
          ∷ high_byte m.regs.sp
          ∷ u8 m.regs.pc
          ∷ high_byte m.regs.pc
          ∷ [])
        i 0;
  put = λ g m. record m {
    regs = record (m.regs) {
      f = g 0;
      a = g 1;
      c = g 2;
      b = g 3;
      e = g 4;
      d = g 5;
      l = g 6;
      h = g 7;
      sp = word_at g 8;
      pc = word_at g 10;
    };
  };
}

-- `&io.ly`, 0x98 bytes: the scalars with two bytes of padding, which are zero, and the palettes.
abbrev pub video_scalars : Machine → List ℕ
video_scalars m =
    let v = m.video in
    v.ly
    ∷ v.lyc
    ∷ 0
    ∷ v.lcdc
    ∷ v.scy
    ∷ v.scx
    ∷ v.wy
    ∷ v.wx
    ∷ v.bgp
    ∷ v.obp0
    ∷ v.obp1
    ∷ v.window_line
    ∷ v.stat
    ∷ v.bcps
    ∷ v.ocps
    ∷ v.vbk
    ∷ v.hdma_active
    ∷ 0
    ∷ u8 v.hdma_src
    ∷ high_byte v.hdma_src
    ∷ u8 v.hdma_dst
    ∷ high_byte v.hdma_dst
    ∷ u8 v.hdma_length
    ∷ high_byte v.hdma_length
    ∷ []

abbrev pub video_block : Block
video_block = record {
  offset = 0x3e;
  size = 0x98;
  view = λ m i.
      (if ltb i 0x18
        then get_or (video_scalars m) i 0
        else if ltb i 0x58
        then m.video.bg_palette (i - 0x18)
        else m.video.obj_palette (i - 0x58));
  put = λ g m. record m {
    video = record {
      ly = g 0;
      lyc = g 1;
      lcdc = g 3;
      scy = g 4;
      scx = g 5;
      wy = g 6;
      wx = g 7;
      bgp = g 8;
      obp0 = g 9;
      obp1 = g 10;
      window_line = g 11;
      stat = g 12;
      bcps = g 13;
      ocps = g 14;
      vbk = g 15;
      hdma_active = g 16;
      hdma_src = word_at g 18;
      hdma_dst = word_at g 20;
      hdma_length = word_at g 22;
      bg_palette = filled_to 0x40 (λ i. g (i + 0x18)) m.video.bg_palette;
      obj_palette = filled_to 0x40 (λ i. g (i + 0x58)) m.video.obj_palette;
    };
  };
}

abbrev pub interrupts_block : Block
interrupts_block = record {
  offset = 0xd6;
  size = 2;
  view = λ m i. get_or (m.ints.int_flags ∷ m.ints.int_enable ∷ []) i 0;
  put = λ g m. record m { ints = record (m.ints) { int_flags = g 0; int_enable = g 1 } };
}

abbrev pub wram_block : Block
wram_block = record {
  offset = 0xd8;
  size = 0x8000;
  view = λ m. m.wram;
  put = λ g m. record m { wram = filled_to 0x8000 g m.wram };
}

abbrev pub vram_block : Block
vram_block = record {
  offset = 0x80d8;
  size = 0x4000;
  view = λ m. m.screen.vram;
  put = λ g m. record m { screen = record (m.screen) { vram = filled_to 0x4000 g m.screen.vram } };
}

abbrev pub hram_block : Block
hram_block = record {
  offset = 0xc0d8;
  size = 0x7f;
  view = λ m. m.screen.hram;
  put = λ g m. record m { screen = record (m.screen) { hram = filled_to 0x7f g m.screen.hram } };
}

abbrev pub tile_map_block : Block
tile_map_block = record {
  offset = 0xc157;
  size = 0x8000;
  view = λ m. m.screen.dmg_tile_map;
  put = λ g m. record m {
    screen = record (m.screen) { dmg_tile_map = filled_to 0x8000 g m.screen.dmg_tile_map };
  };
}

abbrev pub tile_cache_block : Block
tile_cache_block = record {
  offset = 0x14157;
  size = 0x6000;
  view = λ m. m.screen.dmg_tile_cache;
  put = λ g m. record m {
    screen = record (m.screen) { dmg_tile_cache = filled_to 0x6000 g m.screen.dmg_tile_cache };
  };
}

abbrev pub oam_mirror_block : Block
oam_mirror_block = record {
  offset = 0x1a157;
  size = 0xa0;
  view = λ m. m.screen.oam_mirror;
  put = λ g m. record m {
    screen = record (m.screen) { oam_mirror = filled_to 0xa0 g m.screen.oam_mirror };
  };
}

abbrev pub oam_block : Block
oam_block = record {
  offset = 0x1a1f7;
  size = 0xa0;
  view = λ m. m.screen.oam;
  put = λ g m. record m { screen = record (m.screen) { oam = filled_to 0xa0 g m.screen.oam } };
}

-- `&cpu.div`, 4 bytes
abbrev pub timer_block : Block
timer_block = record {
  offset = 0x1a297;
  size = 4;
  view = λ m i. get_or (m.timer.div ∷ m.timer.tac ∷ m.timer.tima ∷ m.timer.tma ∷ []) i 0;
  put =
      λ g m. record m { timer = record (m.timer) { div = g 0; tac = g 1; tima = g 2; tma = g 3 } };
}

-- `&core.mbc1BankLow`, 0x0c bytes: two `int32_t`, two bytes and two bytes of padding, which are zero.
abbrev pub mbc1_block : Block
mbc1_block = record {
  offset = 0x1a29b;
  size = 0x0c;
  view = λ m i.
      let g = m.mbc1_globals in
      get_or
        (u8 g.bank_low
          ∷ high_byte g.bank_low
          ∷ u8 (g.bank_low / 2 ^ 16)
          ∷ u8 (g.bank_low / 2 ^ 24)
          ∷ u8 g.bank_high
          ∷ high_byte g.bank_high
          ∷ u8 (g.bank_high / 2 ^ 16)
          ∷ u8 (g.bank_high / 2 ^ 24)
          ∷ g.ram_enable
          ∷ g.mode
          ∷ [])
        i 0;
  put = λ g m. record m {
    mbc1_globals = record {
      bank_low = int_at g 0;
      bank_high = int_at g 4;
      ram_enable = g 8;
      mode = g 9;
    };
  };
}

-- `&core.mbc5Dirty`, 6 bytes, the last of padding
abbrev pub mbc5_block : Block
mbc5_block = record {
  offset = 0x1a2a7;
  size = 6;
  view = λ m i.
      let g = m.mbc5_globals in
      get_or (g.dirty ∷ g.ram_enable ∷ g.bank_low ∷ g.bank_high ∷ g.ram_bank ∷ []) i 0;
  put = λ g m. record m {
    mbc5_globals = record {
      dirty = g 0;
      ram_enable = g 1;
      bank_low = g 2;
      bank_high = g 3;
      ram_bank = g 4;
    };
  };
}

abbrev pub state_blocks : List Block
state_blocks =
    registers_block ∷ video_block ∷ interrupts_block ∷ wram_block ∷ vram_block ∷ hram_block
    ∷ tile_map_block ∷ tile_cache_block ∷ oam_mirror_block ∷ oam_block ∷ timer_block ∷ mbc1_block
    ∷ mbc5_block ∷ []

abbrev pub state_size : ℕ
state_size = 0x1a2ad

-- `memcpy` of one block into the file's bytes, and of all of them in turn.
unfoldable pub copy_block : Block → Machine → Bytes → Bytes
copy_block b m f j =
    if leb b.offset j && ltb j (b.offset + b.size) then b.view m (j - b.offset) else f j

unfoldable pub write_blocks : List Block → Machine → Bytes → Bytes
write_blocks [] m f = f
write_blocks (b ∷ rest) m f = write_blocks rest m (copy_block b m f)

-- A file of the save directory: its length and its bytes.
pub record StateFile : Type 0 where
  pub length : ℕ
  pub bytes : Bytes

-- What a file read at a position leaves in a buffer: past the end of the file nothing is stored.
unfoldable pub read_block : Block → StateFile → Machine → Machine
read_block b file m =
    b.put (λ i. (if ltb (b.offset + i) file.length then file.bytes (b.offset + i) else b.view m i))
      m

unfoldable pub read_blocks : List Block → StateFile → Machine → Machine
read_blocks [] file m = m
read_blocks (b ∷ rest) file m = read_blocks rest file (read_block b file m)
