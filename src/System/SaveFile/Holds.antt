-- ===== src/System/SaveFile/Holds.antt =====
-- What a file written by `WriteState` of carbon-pc/src/gb/System.cpp holds, and the machine that
-- `ReadState` makes of it.
use open_carbon.Base.{
  ℕ, ◌+◌, ◌*◌, ◌/◌, ◌^◌, ◌≤◌, ◌<◌, List, Option, none, some, ltb, ◌≡◌, refl, Bytes, arith,
  if◌then◌else◌, u8,
}
use open_carbon.State.{Machine, Regs, Video, Ints, Screen, Timer}
use open_carbon.System.SaveFile.{state_bytes, overwrite}
use open_carbon.System.StateBlocks.{
  Block, StateFile, state_blocks, state_size, high_byte, filled_to,
}
use open_carbon.System.SaveFile.Layout.{ordered, Part, write_blocks-Part, ordered-Part}

-- A 16-bit field is below 2^16, and an `int32_t` is its bit pattern.
pub record Savable (m : Machine) : Type 0 where
  pub sp_range : m.regs.sp < 2 ^ 16
  pub pc_range : m.regs.pc < 2 ^ 16
  pub hdma_src_range : m.video.hdma_src < 2 ^ 16
  pub hdma_dst_range : m.video.hdma_dst < 2 ^ 16
  pub hdma_length_range : m.video.hdma_length < 2 ^ 16
  pub bank_low_range : m.mbc1_globals.bank_low < 2 ^ 32
  pub bank_high_range : m.mbc1_globals.bank_high < 2 ^ 32

-- A machine with what a state holds from `saved`; what it does not hold stays.
unfoldable pub restored_regs : Regs → Regs → Regs
restored_regs saved r = record saved {
  halted = r.halted;
  ticks = r.ticks;
  rst38_marker = r.rst38_marker;
}

unfoldable pub restored_video : Video → Video → Video
restored_video saved v = record saved {
  bg_palette = filled_to 0x40 saved.bg_palette v.bg_palette;
  obj_palette = filled_to 0x40 saved.obj_palette v.obj_palette;
}

unfoldable pub restored_ints : Ints → Ints → Ints
restored_ints saved i = record i { int_flags = saved.int_flags; int_enable = saved.int_enable }

unfoldable pub restored_screen : Screen → Screen → Screen
restored_screen saved s = record s {
  vram = filled_to 0x4000 saved.vram s.vram;
  hram = filled_to 0x7f saved.hram s.hram;
  dmg_tile_map = filled_to 0x8000 saved.dmg_tile_map s.dmg_tile_map;
  dmg_tile_cache = filled_to 0x6000 saved.dmg_tile_cache s.dmg_tile_cache;
  oam_mirror = filled_to 0xa0 saved.oam_mirror s.oam_mirror;
  oam = filled_to 0xa0 saved.oam s.oam;
}

unfoldable pub restored_timer : Timer → Timer → Timer
restored_timer saved t = record t {
  div = saved.div;
  tac = saved.tac;
  tima = saved.tima;
  tma = saved.tma;
}

unfoldable pub restored : Machine → Machine → Machine
unfolding restored_regs restored_video restored_ints restored_screen restored_timer
restored saved m = record m {
  regs = restored_regs saved.regs m.regs;
  video = restored_video saved.video m.video;
  ints = restored_ints saved.ints m.ints;
  timer = restored_timer saved.timer m.timer;
  screen = restored_screen saved.screen m.screen;
  wram = filled_to 0x8000 saved.wram m.wram;
  mbc1_globals = saved.mbc1_globals;
  mbc5_globals = saved.mbc5_globals;
}

-- What a file read of a block at its place in `file` stores.
abbrev pub loaded : Block → StateFile → Bytes → Bytes
loaded b file before k =
    if ltb (b.offset + k) file.length then file.bytes (b.offset + k) else before k

-- A file holds the blocks of a machine.
unfoldable pub Holds : Machine → StateFile → Type 0
Holds saved file =
    (b : Block) (k : ℕ)
    → Part b state_blocks
    → k < b.size
    → (before : Bytes) → loaded b file before k ≡ b.view saved k

-- Every byte of each block stands in the file at the block's offset: no block overwrites another's.
pub state_bytes-Part :
    (stamp : List ℕ) (m : Machine) (b : Block) (k : ℕ)
    → Part b state_blocks
    → k < b.size
    → state_bytes stamp m (b.offset + k) ≡ b.view m k
unfolding state_bytes ordered
state_bytes-Part stamp m b k i l = write_blocks-Part m state_size state_blocks _ 0x32 k refl i l

pub state_size-Part : (b : Block) → Part b state_blocks → b.offset + b.size ≤ state_size
unfolding ordered
state_size-Part b i = ordered-Part state_size state_blocks 0x32 refl i

pub overwrite-Holds :
    (old : Option StateFile) (stamp : List ℕ) (m : Machine)
    → Holds m (overwrite old (state_bytes stamp m))
unfolding overwrite Holds
overwrite-Holds none stamp m b k i l before =
    ground (arith, state_bytes-Part stamp m b k, state_size-Part b)
overwrite-Holds (some old) stamp m b k i l before =
    ground (arith, state_bytes-Part stamp m b k, state_size-Part b)

pub low-high :
    (low high v : ℕ) → low ≡ u8 v → high ≡ high_byte v → v < 2 ^ 16 → low + high * 2 ^ 8 ≡ v
low-high low high v l h lt = omega arith

pub four_bytes :
    (a b c d v : ℕ)
    → a ≡ u8 v
    → b ≡ high_byte v
    → c ≡ u8 (v / 2 ^ 16)
    → d ≡ u8 (v / 2 ^ 24)
    → v < 2 ^ 32
    → a + b * 2 ^ 8 + (c + d * 2 ^ 8) * 2 ^ 16 ≡ v
four_bytes a b c d v e f g h lt = omega arith

-- The bytes of an array after the first `size` come from the old array.
pub filled_to-loaded :
    (size : ℕ) (g saved old : Bytes)
    → ((k : ℕ) → k < size → g k ≡ saved k)
    → filled_to size g old ≡ filled_to size saved old
filled_to-loaded size g saved old e = λ i k. pointwise k i
  where
    pointwise : (k : ℕ) → filled_to size g old k ≡ filled_to size saved old k
    pointwise k = ground (arith, e k)
