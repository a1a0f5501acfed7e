-- ===== src/System/SaveFile.antt =====
-- Save states: `WriteState`, `ReadState`, `SaveState` and `LoadState` of
-- carbon-pc/src/gb/System.cpp.
pub mod Layout
pub mod Paths
pub mod Holds
pub mod RoundTrip
pub mod Restore
pub mod Slots
use open_carbon.Base.{
  ℕ, zero, suc, ◌+◌, ◌-◌, ◌*◌, ◌/◌, ◌%◌, ◌^◌, max, List, [], ◌∷◌, ◌++◌, Option, none, some, Bool,
  Bytes, ltb, leb, ◌&&◌, ◌==◌, if◌then◌else◌, get_or, u8, same, decimal,
}
use open_carbon.State.{Machine, apply_stereo}
use open_carbon.Memory.{apu_call}
use open_carbon.System.Ring
use open_carbon.System.Frame.{System}
use open_carbon.System.StateBlocks.{
  Block, StateFile, copy_block, filled_to, high_byte, hram_block, int_at, interrupts_block,
  mbc1_block, mbc5_block, oam_block, oam_mirror_block, read_block, read_blocks, registers_block,
  state_blocks, state_size, tile_cache_block, tile_map_block, timer_block, video_block,
  video_scalars, vram_block, word_at, wram_block, write_blocks,
}

-- The host's files by path, the preview images handed to the PNG writer, and whether a path can be
-- opened for reading and writing, or to create it; a file that can only be truncated is left out.
pub record Disk : Type 0 where
  pub states : List ℕ → Option StateFile
  pub previews : List ℕ → Option Bytes
  pub writable : List ℕ → Bool

-- Replacing one entry of a table by path.
abbrev pub put_path {ℓ} : {A : Type ℓ} → (List ℕ → A) → List ℕ → A → List ℕ → A
put_path table path a other = if same path other then a else table other

-- A slot's directory and its two files. `title` is the cartridge's.
unfoldable pub slot_dir : ℕ → ℕ → List ℕ
slot_dir game slot =
    b's'
    ∷ b'a'
    ∷ b'v'
    ∷ b'e'
    ∷ b':'
    ∷ b'/'
    ∷ (decimal game ++ (b'/' ∷ (decimal slot ++ (b'/' ∷ []))))

unfoldable pub state_path : List ℕ → ℕ → ℕ → List ℕ
unfolding slot_dir
state_path title slot game = slot_dir game slot ++ (title ++ (b'.' ∷ b's' ∷ b't' ∷ b't' ∷ []))

unfoldable pub preview_path : List ℕ → ℕ → ℕ → List ℕ
unfolding slot_dir
preview_path title slot game = slot_dir game slot ++ (title ++ (b'.' ∷ b'p' ∷ b'r' ∷ b'v' ∷ []))

-- The file in memory: zeros, the time stamp, which `snprintf` cuts after 0x31 bytes, and the blocks.
unfoldable pub state_bytes : List ℕ → Machine → Bytes
unfolding write_blocks
state_bytes stamp m =
    write_blocks state_blocks m (λ j. (if ltb j 0x31 then get_or stamp j 0 else 0))

-- A new file gets all 0x20000 bytes; an existing one is overwritten up to the end of the blocks.
unfoldable pub overwrite : Option StateFile → Bytes → StateFile
overwrite none content = record {
  length = 0x20000;
  bytes = λ j. (if ltb j 0x20000 then content j else 0);
}
overwrite (some old) content = record {
  length = max old.length state_size;
  bytes = λ j. (if ltb j state_size then content j else old.bytes j);
}

-- `stamp` is the host's local time as text.
unfoldable pub write_state : List ℕ → List ℕ → ℕ → ℕ → Machine → Disk → Disk
unfolding state_path preview_path overwrite
write_state stamp title slot game m disk =
    let path = state_path title slot game in
    if disk.writable path
    then record disk {
      states =
          put_path disk.states path (some (overwrite (disk.states path) (state_bytes stamp m)));
      previews =
          put_path disk.previews (preview_path title slot game) (some (m.screen.framebuffer));
    }
    else disk

-- A missing file leaves everything.
unfoldable pub load_file : Option StateFile → Machine → Machine
unfolding read_blocks
load_file none m = m
load_file (some file) m = read_blocks state_blocks file m

unfoldable pub read_state : List ℕ → ℕ → ℕ → Disk → Machine → Machine
unfolding load_file state_path
read_state title slot game disk m = load_file (disk.states (state_path title slot game)) m

unfoldable pub save_state : List ℕ → List ℕ → ℕ → ℕ → System → Disk → Disk
unfolding write_state
save_state stamp title slot game s disk = write_state stamp title (u8 slot) game s.machine disk

-- The sound chip is not part of the state: only its outputs are derived again.
unfoldable pub load_state : List ℕ → ℕ → ℕ → Disk → System → System
unfolding read_state
load_state title slot game disk s = record s {
  machine = apu_call (read_state title (u8 slot) game disk s.machine) apply_stereo;
  ring = Ring.clear s.ring;
}
