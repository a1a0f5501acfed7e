-- ===== src/Cart/Boot.antt =====
-- What `Load` of carbon-pc/src/gb/Cartridge.cpp makes of a ROM file.
use open_carbon.Base.{
  ℕ, ◌/◌, ◌%◌, ◌^◌, ◌≤◌, ◌<◌, ◌≡◌, refl, arith, List, [], ◌∷◌, Option, none, some, Bytes, false,
  length, get_or, if◌then◌else◌, ap, sym, ◌∙◌, ◌==◌, u32,
}
use mathlib.Core.Option
use open_carbon.State.{
  Machine, Cartridge, rom_only, mbc1, mbc3, mbc5, system_only, SramFile, Board, Rtc, Mbc1Globals,
  Mbc5Globals,
}
use open_carbon.Cart.Defs.{read_by}
use open_carbon.Cart.Files.{load_sram}
use open_carbon.Cart.RamSizes.{ram_size_table}
use open_carbon.Cart.Load.{
  path_is_nes, path_is_gba, read_rom, patch_rom, Mapper, plain, banked1, banked3, banked5,
  mapper_of, Loaded, save_path, c_string, build, load_mapper, load,
}
use open_carbon.Cart.Mbc1
use open_carbon.Cart.Mbc3
use open_carbon.Cart.Mbc5

-- The buffer holds the file.
read_rom-get_or :
    (past : Bytes) (bytes : List ℕ) (i : ℕ)
    → length bytes < 2 ^ 31
    → i < length bytes
    → (read_rom past (some bytes)).0 i ≡ get_or bytes i 0
unfolding read_rom
read_rom-get_or past bytes i small inside =
    let size : u32 (length bytes) ≡ length bytes = omega arith in rw size (ground arith)

-- The patch of one game leaves the first bank.
patch_rom-below : (rom : Bytes) (addr : ℕ) → addr < 0x4000 → patch_rom rom addr ≡ rom addr
unfolding patch_rom
patch_rom-below rom addr low = ground arith

-- Every mapper maps the ROM's first bank to 0000-3FFF.
mbc1-first_bank :
    (g : Mbc1Globals) (board : Board) (addr : ℕ)
    → addr < 0x4000
    → Mbc1.read g board addr ≡ board.rom addr
unfolding Mbc1.read Mbc1.rom_index
mbc1-first_bank g board addr low = let e : addr % 2 ^ 14 ≡ addr = omega arith in ground arith

mbc3-first_bank :
    (board : Board) (r : Rtc) (addr : ℕ) → addr < 0x4000 → Mbc3.read board r addr ≡ board.rom addr
unfolding Mbc3.read
mbc3-first_bank board r addr low = let e : addr % 2 ^ 14 ≡ addr = omega arith in ground arith

mbc5-first_bank :
    (g : Mbc5Globals) (board : Board) (addr : ℕ)
    → addr < 0x4000
    → Mbc5.read g board addr ≡ board.rom addr
unfolding Mbc5.read Mbc5.rom_index
mbc5-first_bank g board addr low = let e : addr % 2 ^ 14 ≡ addr = omega arith in ground arith

load_sram-rom : (board : Board) (file : SramFile) → (load_sram board file).rom ≡ board.rom
unfolding load_sram
load_sram-rom board file = refl

build-first_bank :
    (files : List ℕ → SramFile) (clock : ℕ → ℕ) (m : Machine) (rom : Bytes) (size ram : ℕ)
    (title : List ℕ) (mapper : Mapper) (addr : ℕ)
    → addr < 0x4000
    → let (m', cart) = build files clock m rom size ram title mapper in
      read_by m' cart addr ≡ rom addr
unfolding build read_by Mbc1.create Mbc3.create Mbc5.create
build-first_bank files clock m rom size ram title plain addr low =
    let e : addr % 2 ^ 15 ≡ addr = omega arith in rw e refl
build-first_bank files clock m rom size ram title (banked1 has_ram) addr low =
    let made = Mbc1.create m.mbc1_globals rom size (if has_ram then ram else 0) (files []) in
    mbc1-first_bank made.0 made.1 addr low
build-first_bank files clock m rom size ram title (banked3 has_ram rtc) addr low =
    let made = Mbc3.create rom size (if has_ram then ram else 0) rtc (files []) clock in
    mbc3-first_bank made.0 made.1 addr low
build-first_bank files clock m rom size ram title (banked5 has_ram battery) addr low =
    let made = Mbc5.create m.mbc5_globals rom size (if has_ram then ram else 0) (files []) in
    let file = files (save_path title (0x2e ∷ 0x73 ∷ 0x61 ∷ 0x76 ∷ [])) in
    ground (
      arith,
      mbc5-first_bank made.0 made.1 addr low,
      mbc5-first_bank made.0 (load_sram made.1 file) addr low,
      load_sram-rom made.1 file,
    )

-- The cartridge types that run, with their mapper: 0 for none, else the number of the MBC.
abbrev pub supported : List (ℕ × ℕ)
supported =
    (0x00, 0)
    ∷ (0x01, 1)
    ∷ (0x02, 1)
    ∷ (0x03, 1)
    ∷ (0x0f, 3)
    ∷ (0x10, 3)
    ∷ (0x11, 3)
    ∷ (0x12, 3)
    ∷ (0x13, 3)
    ∷ (0x19, 5)
    ∷ (0x1a, 5)
    ∷ (0x1b, 5)
    ∷ (0x1c, 5)
    ∷ (0x1d, 5)
    ∷ (0x1e, 5)
    ∷ []

abbrev pub mbc_in : List (ℕ × ℕ) → ℕ → Option ℕ
mbc_in [] kind = none
mbc_in ((k, mbc) ∷ rest) kind = if kind == k then some mbc else mbc_in rest kind

abbrev pub mbc_of : Cartridge → ℕ
mbc_of (rom_only board) = 0
mbc_of (mbc1 board) = 1
mbc_of (mbc3 board r) = 3
mbc_of (mbc5 board) = 5
mbc_of system_only = 6

-- The game is refused for its type, or it has the type's mapper, and its first bank and its colour flag
-- are those of the file.
abbrev pub Boots : List ℕ → Option (Machine × Loaded) → Type 0
Boots bytes none = mbc_in supported (get_or bytes 0x147 0) ≡ none
Boots bytes (some (m, l)) =
    (mbc_in supported (get_or bytes 0x147 0) ≡ some (mbc_of l.cart))
    × ((addr : ℕ) → addr < 0x4000 → read_by m l.cart addr ≡ get_or bytes addr 0)
    × (l.system_type ≡ get_or bytes 0x143 0 / 2 ^ 7 % 2)

abbrev mbc_made : Mapper → ℕ
mbc_made plain = 0
mbc_made (banked1 has_ram) = 1
mbc_made (banked3 has_ram rtc) = 3
mbc_made (banked5 has_ram battery) = 5

-- The switch is the table.
mapper_of-supported : (kind : ℕ) → mbc_in supported kind ≡ Option.map mbc_made (mapper_of kind)
unfolding mapper_of
mapper_of-supported kind = ground arith

build-mbc :
    (files : List ℕ → SramFile) (clock : ℕ → ℕ) (m : Machine) (rom : Bytes) (size ram : ℕ)
    (title : List ℕ) (mapper : Mapper)
    → mbc_of (build files clock m rom size ram title mapper).1 ≡ mbc_made mapper
unfolding build
build-mbc files clock m rom size ram title plain = refl
build-mbc files clock m rom size ram title (banked1 has_ram) = refl
build-mbc files clock m rom size ram title (banked3 has_ram rtc) = refl
build-mbc files clock m rom size ram title (banked5 has_ram battery) = refl

load_mapper-Boots :
    (files : List ℕ → SramFile) (clock : ℕ → ℕ) (m : Machine) (rom : Bytes) (size : ℕ)
    (bytes : List ℕ) (chosen : Option Mapper)
    → ((i : ℕ) → i < 0x4000 → rom i ≡ get_or bytes i 0)
    → mapper_of (rom 0x147) ≡ chosen
    → Boots bytes (load_mapper files clock m rom size chosen)
unfolding load_mapper
load_mapper-Boots files clock m rom size bytes chosen holds taken = boots chosen listed
  where
    listed : mbc_in supported (get_or bytes 0x147 0) ≡ Option.map mbc_made chosen
    listed =
        ap (mbc_in supported) (sym (holds 0x147 (omega arith)))
        ∙ (mapper_of-supported (rom 0x147) ∙ ap (Option.map mbc_made) taken)

    boots :
        (o : Option Mapper)
        → mbc_in supported (get_or bytes 0x147 0) ≡ Option.map mbc_made o
        → Boots bytes (load_mapper files clock m rom size o)
    boots none e = e
    boots (some mapper) e = (
      e ∙ ap some_number (sym (build-mbc files clock m _ size _ _ mapper)),
      λ addr low. reads addr low,
      ap (λ v. v / 2 ^ 7 % 2) (reads 0x143 (omega arith)),
    )
      where
        some_number : ℕ → Option ℕ
        some_number n = some n

        made : Machine × Cartridge
        made =
            build files clock m (patch_rom rom) size (get_or ram_size_table (rom 0x149) 0)
              (c_string rom 0x134 12) mapper

        reads : (addr : ℕ) → addr < 0x4000 → read_by made.0 made.1 addr ≡ get_or bytes addr 0
        reads addr low =
            build-first_bank files clock m (patch_rom rom) size _ _ mapper addr low
            ∙ patch_rom-below rom addr low
            ∙ holds addr low

-- A ROM file of a bank at least and of less than 2 GB, whose path is not of a `.nes` or `.gba` file, is
-- refused only if its header's type is not in the table. Once it is loaded, it has the type's mapper,
-- 0000-3FFF read as the file's first bank, and the system type is the header's colour bit.
pub load-Boots :
    (past : Bytes) (files : List ℕ → SramFile) (clock : ℕ → ℕ) (m : Machine) (path bytes : List ℕ)
    → path_is_nes path ≡ false
    → path_is_gba path ≡ false
    → (files path).content ≡ some bytes
    → 0x4000 ≤ length bytes
    → length bytes < 2 ^ 31
    → Boots bytes (load past files clock m path)
unfolding load
load-Boots past files clock m path bytes nes gba content bank small =
    let (rom, size) = read_rom past (some bytes) in
    rw (nes, gba, content)
      (load_mapper-Boots files clock m rom size bytes _
        (λ i low. read_rom-get_or past bytes i small (omega arith)) refl)
