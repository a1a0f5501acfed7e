-- ===== src/Cart/Files.antt =====
-- `LoadSramFile`, `SaveSramFile`, `LoadSram` and `FlushSram` of carbon-pc/src/gb/Cartridge.cpp.
use open_carbon.Base.{
  ℕ, zero, suc, ◌+◌, Bool, true, false, List, [], ◌∷◌, Option, none, some, Bytes, ltb, ◌==◌,
  if◌then◌else◌, length, get_or, u32,
}
use open_carbon.State.{Board, SramFile}

-- The `n` bytes of a buffer from index `i` on, as they are written to a file.
unfoldable pub file_bytes : Bytes → ℕ → ℕ → List ℕ
file_bytes buffer i zero = []
file_bytes buffer i (suc n) = buffer i ∷ file_bytes buffer (i + 1) n

-- `memset(buffer, 0, size)`
abbrev pub cleared : Bytes → ℕ → Bytes
cleared buffer size i = if ltb i size then 0 else buffer i

-- Reading the file over the first `size` bytes of the buffer.
abbrev pub filled : Bytes → ℕ → List ℕ → Bytes
filled buffer size bytes i = if ltb i size then get_or bytes i 0 else buffer i

-- The buffer after the call, and whether later flushes are allowed.
unfoldable pub load_sram_file : Bytes → ℕ → Option (List ℕ) → Bytes × Bool
load_sram_file buffer size none = (cleared buffer size, true)
load_sram_file buffer size (some bytes) =
    if u32 (length bytes) == size
    then (filled buffer size bytes, true)
    else (cleared buffer size, false)

-- A file that cannot be opened for writing stays as it was.
unfoldable pub save_sram_file : Bytes → ℕ → SramFile → SramFile
save_sram_file buffer size file =
    if file.writable then record file { content = some (file_bytes buffer 0 size) } else file

-- `Mbc1::LoadSram` and `Mbc5::LoadSram`.
unfoldable pub load_sram : Board → SramFile → Board
unfolding load_sram_file
load_sram board file =
    let (buffer, ok) = load_sram_file board.sram board.ram_size file.content in
    record board { sram = buffer; sram_loaded = ok; file = file }

-- `FlushSram` of the three mappers.
unfoldable pub flush_sram : Board → Board
unfolding save_sram_file
flush_sram board =
    if board.sram_loaded
    then record board { file = save_sram_file board.sram board.ram_size board.file }
    else board
