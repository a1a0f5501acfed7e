-- ===== src/Cart/Saves.antt =====
-- The save file of carbon-pc/src/gb/Cartridge.cpp: what a flush stores, a load brings
-- back, and a file of another length is never written over.
use open_carbon.Base.{
  ℕ, zero, suc, ◌+◌, ◌^◌, ◌<◌, ◌≡◌, ◌≢◌, refl, arith, List, length, get_or, Bytes, true, false, [],
  ◌∷◌, some, u32,
}
use open_carbon.State.{Board, SramFile, Mbc5Globals}
use open_carbon.Cart.Mbc5
use open_carbon.Cart.Files.{file_bytes, load_sram, flush_sram, load_sram_file, save_sram_file}

length-file_bytes : (buffer : Bytes) (i n : ℕ) → length (file_bytes buffer i n) ≡ n
unfolding file_bytes
length-file_bytes buffer i zero = refl
length-file_bytes buffer i (suc n) = omega (arith, length-file_bytes buffer (i + 1) n)

get_or-file_bytes :
    (buffer : Bytes) (i n k : ℕ) → k < n → get_or (file_bytes buffer i n) k 0 ≡ buffer (i + k)
unfolding file_bytes
get_or-file_bytes buffer i zero k h = ground arith
get_or-file_bytes buffer i (suc n) zero h = ground arith
get_or-file_bytes buffer i (suc n) (suc k) h = ground (arith, get_or-file_bytes buffer (i + 1) n k)

-- A flush of a loaded board with less than 4 GB of RAM writes its file, where the host lets it: a
-- cartridge of the same RAM size that loads this file has the flushed bytes in its buffer, and may
-- flush in its turn.
pub load_sram-flush_sram :
    (board fresh : Board)
    → board.sram_loaded ≡ true
    → board.file.writable ≡ true
    → board.ram_size < 2 ^ 32
    → fresh.ram_size ≡ board.ram_size
    → let loaded = load_sram fresh (flush_sram board).file in
      ((i : ℕ) → i < board.ram_size → loaded.sram i ≡ board.sram i) × (loaded.sram_loaded ≡ true)
unfolding load_sram flush_sram load_sram_file save_sram_file
load_sram-flush_sram board fresh was_loaded writable small same =
    let size = length-file_bytes board.sram 0 board.ram_size in
    let stays : u32 board.ram_size ≡ board.ram_size = omega arith in
    rw (was_loaded, writable, same, size, stays)
      (
        λ i below. ground (arith, get_or-file_bytes board.sram 0 board.ram_size i below),
        ground arith,
      )

-- Any number of the program's writes to a cartridge with MBC5.
abbrev pub writes : List (ℕ × ℕ) → Mbc5Globals × Board → Mbc5Globals × Board
writes [] s = s
writes ((addr, value) ∷ rest) s = writes rest (Mbc5.write s.0 s.1 addr value)

-- What no write changes while no save may be written.
abbrev Refused : SramFile → Mbc5Globals × Board → Type 0
Refused file (g, board) = (board.sram_loaded ≡ false) × (board.file ≡ file)

write-Refused :
    (g : Mbc5Globals) (board : Board) (addr value : ℕ) (file : SramFile)
    → Refused file (g, board)
    → Refused file (Mbc5.write g board addr value)
unfolding Mbc5.write Mbc5.write_enable flush_sram
write-Refused g board addr value file (closed, same) = ground (arith, closed, same)

writes-Refused :
    (all : List (ℕ × ℕ)) (s : Mbc5Globals × Board) (file : SramFile)
    → Refused file s
    → Refused file (writes all s)
writes-Refused [] s file h = h
writes-Refused ((addr, value) ∷ rest) s file h =
    writes-Refused rest (Mbc5.write s.0 s.1 addr value) file
      (write-Refused s.0 s.1 addr value file h)

flush_sram-Refused :
    (g : Mbc5Globals) (board : Board) (file : SramFile)
    → Refused file (g, board)
    → (flush_sram board).file ≡ file
unfolding flush_sram
flush_sram-Refused g board file (closed, same) = ground (arith, closed, same)

load_sram-refused :
    (board : Board) (file : SramFile) (bytes : List ℕ)
    → file.content ≡ some bytes
    → u32 (length bytes) ≢ board.ram_size
    → ((i : ℕ) → i < board.ram_size → (load_sram board file).sram i ≡ 0)
      × ((load_sram board file).sram_loaded ≡ false)
unfolding load_sram load_sram_file
load_sram-refused board file bytes content wrong = rw content (ground arith)

load_sram-file : (board : Board) (file : SramFile) → (load_sram board file).file ≡ file
unfolding load_sram
load_sram-file board file = refl

-- A save file of less than 4 GB whose length is not the RAM's is refused: the RAM starts cleared, and
-- whatever the program then writes to the MBC5, with the flushes that this makes, and with one more
-- flush at the end, the file stays as it is.
pub flush_sram-refused :
    (g : Mbc5Globals) (board : Board) (file : SramFile) (bytes : List ℕ) (all : List (ℕ × ℕ))
    → file.content ≡ some bytes
    → length bytes < 2 ^ 32
    → length bytes ≢ board.ram_size
    → let loaded = load_sram board file in
      let later = (writes all (g, loaded)).1 in
      ((i : ℕ) → i < board.ram_size → loaded.sram i ≡ 0)
      × (later.file ≡ file)
      × ((flush_sram later).file ≡ file)
flush_sram-refused g board file bytes all content small wrong =
    let (blank, closed) =
      load_sram-refused board file bytes content (λ e. omega (arith, e, small, wrong)) in
    let kept =
      writes-Refused all (g, load_sram board file) file (closed, load_sram-file board file) in
    let later = writes all (g, load_sram board file) in
    (blank, kept.1, flush_sram-Refused later.0 later.1 file kept)
