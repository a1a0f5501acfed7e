-- ===== src/Cart/Load.antt =====
-- `Load` of carbon-pc/src/gb/Cartridge.cpp. A path is its bytes; the host's files are a function from
-- the path, with its answer to `Paths::Resolve` in it.
use open_carbon.Base.{
  ℕ, zero, suc, ◌+◌, ◌-◌, ◌/◌, ◌%◌, ◌^◌, ◌==◌, ◌&&◌, ◌||◌, Bool, true, false, List, [], ◌∷◌, ◌++◌,
  Option, none, some, Bytes, if◌then◌else◌, ltb, leb, length, get_or, update, u8, u32, same,
}
use open_carbon.State.{Machine, Cartridge, rom_only, mbc1, mbc3, mbc5, system_only, SramFile}
use open_carbon.Cart.Defs.{read_by}
use open_carbon.Cart.Files.{file_bytes, load_sram}
use open_carbon.Cart.RamSizes.{ram_size_table}
use open_carbon.Cart.Mbc1
use open_carbon.Cart.Mbc3
use open_carbon.Cart.Mbc5

-- The last dot and what follows it.
abbrev pub suffix_from : List ℕ → List ℕ → List ℕ
suffix_from [] found = found
suffix_from (c ∷ rest) found = suffix_from rest (if c == 0x2e then c ∷ rest else found)

-- `.nes` and `.NES`
unfoldable pub path_is_nes : List ℕ → Bool
path_is_nes path =
    let ext = suffix_from path [] in
    same ext (0x2e ∷ 0x6e ∷ 0x65 ∷ 0x73 ∷ []) || same ext (0x2e ∷ 0x4e ∷ 0x45 ∷ 0x53 ∷ [])

abbrev pub lower_case : List ℕ → List ℕ
lower_case [] = []
lower_case (c ∷ rest) = (if ltb (u8 (c + 2 ^ 8 - 0x41)) 26 then c + 0x20 else c) ∷ lower_case rest

-- `.gba` in either case
unfoldable pub path_is_gba : List ℕ → Bool
path_is_gba path = same (lower_case (suffix_from path [])) (0x2e ∷ 0x67 ∷ 0x62 ∷ 0x61 ∷ [])

-- The buffer and its size as an `int32_t`'s bit pattern. The loop does not run for a negative size.
-- One byte more than the size is allocated and cleared; `past` is what stands in memory behind it.
unfoldable pub read_rom : Bytes → Option (List ℕ) → Bytes × ℕ
read_rom past none = (λ i. (if leb i 0x8000 then 0 else past i), 0)
read_rom past (some bytes) =
    let size = u32 (length bytes) in
    let held = λ (i : ℕ). if ltb size (2 ^ 31) && ltb i size then get_or bytes i 0 else 0 in
    (λ i. (if leb i size then held i else past i), size)

-- The bytes up to a zero, at most `n`.
abbrev pub c_string : Bytes → ℕ → ℕ → List ℕ
c_string buffer i zero = []
c_string buffer i (suc n) =
    let rest = c_string buffer (i + 1) n in if buffer i == 0 then [] else buffer i ∷ rest

-- `PM_CRYSTAL` with its zero
abbrev pub crystal : List ℕ
crystal = 0x50 ∷ 0x4d ∷ 0x5f ∷ 0x43 ∷ 0x52 ∷ 0x59 ∷ 0x53 ∷ 0x54 ∷ 0x41 ∷ 0x4c ∷ 0 ∷ []

unfoldable pub patch_rom : Bytes → Bytes
patch_rom rom =
    if same (file_bytes rom 0x134 11) crystal
    then update (update (update rom 0x658c 0xc3) 0x658d 0x85) 0x658e 0x63
    else rom

-- The constructor calls of the switch: with the header's RAM size or none, with a clock or none, and
-- whether the save file is loaded.
pub data Mapper : Type 0 where
  plain : Mapper
  banked1 : Bool → Mapper
  banked3 : Bool → Bool → Mapper
  banked5 : Bool → Bool → Mapper

unfoldable pub mapper_of : ℕ → Option Mapper
mapper_of kind =
    if kind == 0
    then some plain
    else if kind == 1
    then some (banked1 false)
    else if kind == 2 || kind == 3
    then some (banked1 true)
    else if kind == 0x0f
    then some (banked3 false true)
    else if kind == 0x10
    then some (banked3 true true)
    else if kind == 0x11
    then some (banked3 false false)
    else if kind == 0x12 || kind == 0x13
    then some (banked3 true false)
    else if kind == 0x19 || kind == 0x1c
    then some (banked5 false false)
    else if kind == 0x1a || kind == 0x1d
    then some (banked5 true false)
    else if kind == 0x1b || kind == 0x1e
    then some (banked5 true true)
    else none

-- What `Load` hands out beside the globals that the constructors set.
pub record Loaded : Type 0 where
  pub cart : Cartridge
  pub system_type : ℕ
  pub title : List ℕ
  pub state_path : List ℕ

-- `save:/`, then the title and an extension
abbrev pub save_path : List ℕ → List ℕ → List ℕ
save_path title ext = (0x73 ∷ 0x61 ∷ 0x76 ∷ 0x65 ∷ 0x3a ∷ 0x2f ∷ []) ++ title ++ ext

module _ (files : List ℕ → SramFile) (clock : ℕ → ℕ) where
  -- A mapper has no save path until `LoadSram`, which `Mbc3` ignores.
  unfoldable pub build : Machine → Bytes → ℕ → ℕ → List ℕ → Mapper → Machine × Cartridge
  unfolding Mbc1.create Mbc3.create Mbc5.create load_sram
  build m rom size ram title plain = (
    m,
    rom_only (record {
      rom = rom;
      rom_size = size;
      ram_size = 0;
      sram = λ _. 0;
      sram_loaded = false;
      sram_dirty = false;
      file = files [];
    }),
  )
  build m rom size ram title (banked1 has_ram) =
      let (g, board) =
        Mbc1.create m.mbc1_globals rom size (if has_ram then ram else 0) (files []) in
      (record m { mbc1_globals = g }, mbc1 board)
  build m rom size ram title (banked3 has_ram rtc) =
      let (board, r) = Mbc3.create rom size (if has_ram then ram else 0) rtc (files []) clock in
      (m, mbc3 board r)
  build m rom size ram title (banked5 has_ram battery) =
      let (g, board) =
        Mbc5.create m.mbc5_globals rom size (if has_ram then ram else 0) (files []) in
      let sav = save_path title (0x2e ∷ 0x73 ∷ 0x61 ∷ 0x76 ∷ []) in
      (record m { mbc5_globals = g }, mbc5 (if battery then load_sram board (files sav) else board))

  -- From the switch of `Load` on.
  unfoldable pub load_mapper : Machine → Bytes → ℕ → Option Mapper → Option (Machine × Loaded)
  unfolding build
  load_mapper m rom size none = none
  load_mapper m rom size (some mapper) =
      let title = c_string rom 0x134 12 in
      let ram = get_or ram_size_table (rom 0x149) 0 in
      let (m', cart) = build m (patch_rom rom) size ram title mapper in
      some (
        m',
        record {
          cart = cart;
          system_type = read_by m' cart 0x143 / 2 ^ 7 % 2;
          title = title;
          state_path = save_path title (0x2e ∷ 0x73 ∷ 0x74 ∷ 0x74 ∷ []);
        },
      )

module _ (past : Bytes) (files : List ℕ → SramFile) (clock : ℕ → ℕ) where
  -- `none` is the abort at a cartridge type without a mapper.
  unfoldable pub load : Machine → List ℕ → Option (Machine × Loaded)
  load m path =
      if path_is_nes path
      then some (m, record { cart = system_only; system_type = 3; title = []; state_path = [] })
      else if path_is_gba path
      then some (m, record { cart = system_only; system_type = 2; title = []; state_path = [] })
      else let (rom, size) = read_rom past (files path).content in
        load_mapper files clock m rom size (mapper_of (rom 0x147))
