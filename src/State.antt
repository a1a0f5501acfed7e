-- ===== src/State.antt =====
-- The emulator's state: carbon-pc/src/gb/State.h, and the cartridge objects of
-- carbon-pc/src/gb/Cartridge.h, as one record. The three packed blocks of globals are regrouped by
-- component; a field keeps its name in snake case. A byte array is a function from the index.
use open_carbon.Base.{ℕ, Bool, List, Bytes, Option}

-- The registers of `CpuBlock`, with what an instruction keeps beside them. `debugLog`, which only
-- turns a message on, is left out.
pub record Regs : Type 0 where
  pub f : ℕ
  pub a : ℕ
  pub c : ℕ
  pub b : ℕ
  pub e : ℕ
  pub d : ℕ
  pub l : ℕ
  pub h : ℕ
  pub sp : ℕ
  pub pc : ℕ
  pub halted : ℕ
  pub ticks : ℕ
  pub rst38_marker : ℕ

-- The interrupt flags: `intFlags`, `intEnable` of `CpuBlock`; the rest of `CoreBlock`.
pub record Ints : Type 0 where
  pub int_flags : ℕ
  pub int_enable : ℕ
  pub ime_request : ℕ
  pub ime : ℕ
  pub ei_delay : ℕ

-- The timer of `CpuBlock`. The three `int32_t` fields are never negative.
pub record Timer : Type 0 where
  pub div_accum : ℕ
  pub div : ℕ
  pub tac : ℕ
  pub tima : ℕ
  pub tma : ℕ
  pub tima_accum : ℕ
  pub tima_period : ℕ

-- `IoBlock` from `ly` on.
pub record Video : Type 0 where
  pub ly : ℕ
  pub lyc : ℕ
  pub lcdc : ℕ
  pub scy : ℕ
  pub scx : ℕ
  pub wy : ℕ
  pub wx : ℕ
  pub bgp : ℕ
  pub obp0 : ℕ
  pub obp1 : ℕ
  pub window_line : ℕ
  pub stat : ℕ
  pub bcps : ℕ
  pub ocps : ℕ
  pub vbk : ℕ
  pub hdma_active : ℕ
  pub hdma_src : ℕ
  pub hdma_dst : ℕ
  pub hdma_length : ℕ
  pub bg_palette : Bytes
  pub obj_palette : Bytes

-- The arrays and the LCD fields of `CoreBlock`.
pub record Screen : Type 0 where
  pub framebuffer : Bytes
  pub dmg_tile_cache : Bytes
  pub oam_mirror : Bytes
  pub dmg_tile_map : Bytes
  pub vram : Bytes
  pub line_color_index : Bytes
  pub line_bg_priority : Bytes
  pub dmg_palette_rgb : Bytes
  pub lcd_tick_accum : ℕ
  pub lcd_mode : ℕ
  pub frame_done : ℕ
  pub oam : Bytes
  pub hram : Bytes

-- `core.mbc1BankLow` to `core.mbc1Mode`: the bank registers of MBC1 are globals.
pub record Mbc1Globals : Type 0 where
  pub bank_low : ℕ
  pub bank_high : ℕ
  pub ram_enable : ℕ
  pub mode : ℕ

-- `core.mbc5Dirty` to `core.mbc5RamBank`.
pub record Mbc5Globals : Type 0 where
  pub dirty : ℕ
  pub ram_enable : ℕ
  pub bank_low : ℕ
  pub bank_high : ℕ
  pub ram_bank : ℕ

-- The file behind `sramPath`: its bytes while it exists, and whether the host lets it be written.
pub record SramFile : Type 0 where
  pub content : Option (List ℕ)
  pub writable : Bool

-- What the mapper classes keep alike: the two buffers with their sizes, `sramLoaded`, `sramDirty`
-- and the save file. A read outside a buffer gives what the function holds there.
pub record Board : Type 0 where
  pub rom : Bytes
  pub rom_size : ℕ
  pub ram_size : ℕ
  pub sram : Bytes
  pub sram_loaded : Bool
  pub sram_dirty : Bool
  pub file : SramFile

-- The fields that only `Mbc3` has. `clock k` is the answer to the `k`-th call of `std::time`, and
-- `clock_reads` counts the calls made.
pub record Rtc : Type 0 where
  pub ram_enable : Bool
  pub rom_bank : ℕ
  pub ram_select : ℕ
  pub has_rtc : Bool
  pub seconds : ℕ
  pub minutes : ℕ
  pub hours : ℕ
  pub day_low : ℕ
  pub day_high : ℕ
  pub latched : Bytes
  pub last_time : ℕ
  pub latch_prev : ℕ
  pub clock : ℕ → ℕ
  pub clock_reads : ℕ

-- The classes that derive from `Cartridge`.
pub data Cartridge : Type 0 where
  rom_only : Board → Cartridge
  mbc1 : Board → Cartridge
  mbc3 : Board → Rtc → Cartridge
  mbc5 : Board → Cartridge
  system_only : Cartridge

-- The calls that the core makes of the sound library, each with its arguments.
pub data ApuCall : Type 0 where
  write_register : ℕ → ℕ → ℕ → ApuCall
  end_frame : ℕ → ApuCall
  construct : ApuCall
  connect_outputs : ApuCall
  apply_stereo : ApuCall
  read_samples : ApuCall

-- The sound library, which is another project's: its state is the calls made so far, newest first,
-- and `read_register calls time addr` is its answer to a register read. A register read is taken to
-- leave the library's later answers as they are, so it is not among the calls.
pub record Apu : Type 0 where
  pub calls : List ApuCall
  pub read_register : List ApuCall → ℕ → ℕ → ℕ

pub record Machine : Type 0 where
  pub regs : Regs
  pub ints : Ints
  pub timer : Timer
  pub video : Video
  pub screen : Screen
  pub mbc1_globals : Mbc1Globals
  pub mbc5_globals : Mbc5Globals
  pub cart : Cartridge
  pub is_cgb : ℕ
  pub key1 : ℕ
  pub double_speed : ℕ
  pub joypad_buttons : ℕ
  pub joyp_select : ℕ
  pub wram : Bytes
  pub wram_bank : ℕ
  pub apu : Apu
  pub apu_time : ℕ
  -- The calls of `Write8` that the host's stack holds inside one another, and whether it ran over.
  -- A machine that overflowed stands for a process that has crashed; its other fields mean nothing.
  pub host_stack : ℕ
  pub overflowed : Bool
