-- ===== src/Tests/Cart.antt =====
-- The cartridges' theorems at concrete boards and clocks.
use open_carbon.Base.{
  ℕ, zero, suc, List, ◌+◌, ◌-◌, ◌*◌, ◌%◌, ◌^◌, ◌<◌, ◌≡◌, refl, arith, bit, leb, if◌then◌else◌,
  length, ◌∙◌, true, false, none, some, [], ◌∷◌,
}
use open_carbon.State.{Board, SramFile, Rtc, Mbc1Globals, Mbc5Globals}
use open_carbon.Cart.Files.{load_sram, flush_sram}
use open_carbon.Cart.Mbc3.{advance_rtc}
use open_carbon.Cart.Mbc3.Clock.{IsClock, total_seconds, advance_rtc_running}
use open_carbon.Cart.Saves.{load_sram-flush_sram, writes, flush_sram-refused}
use open_carbon.Cart.Load.{path_is_nes, path_is_gba, load}
use open_carbon.Cart.Boot.{Boots, load-Boots}
use open_carbon.Tests.Data.{fresh}

-- 32 KB of RAM, loaded from a save file.
abbrev board : Board
board = record {
  rom = λ _. 0;
  rom_size = 2 ^ 15;
  ram_size = 2 ^ 15;
  sram = λ i. i % 7;
  sram_loaded = true;
  sram_dirty = false;
  file = record { content = none; writable = true };
}

abbrev blank : Board
blank = record board { sram = λ _. 0; sram_loaded = false }

abbrev banked1 : Mbc1Globals
banked1 = record (fresh.mbc1_globals) { ram_enable = 1; mode = 1; bank_high = 2 }

abbrev banked5 : Mbc5Globals
banked5 = record (fresh.mbc5_globals) { ram_enable = 1; ram_bank = 3 }

load_sram-flush_sram_example :
    ((i : ℕ) → i < 2 ^ 15 → (load_sram blank (flush_sram board).file).sram i ≡ board.sram i)
    × ((load_sram blank (flush_sram board).file).sram_loaded ≡ true)
load_sram-flush_sram_example = load_sram-flush_sram board blank refl refl (omega arith) refl

-- A file of three bytes is not a save of 32 KB.
abbrev short : SramFile
short = record { content = some (1 ∷ 2 ∷ 3 ∷ []); writable = true }

-- The RAM is switched on, written to and switched off.
abbrev session : List (ℕ × ℕ)
session = (0, 10) ∷ (0xa000, 7) ∷ (0, 0) ∷ []

flush_sram-refused_example :
    ((i : ℕ) → i < 2 ^ 15 → (load_sram board short).sram i ≡ 0)
    × ((writes session (banked5, load_sram board short)).1.file ≡ short)
    × ((flush_sram (writes session (banked5, load_sram board short)).1).file ≡ short)
flush_sram-refused_example =
    flush_sram-refused banked5 board short (1 ∷ 2 ∷ 3 ∷ []) session refl (omega arith) (omega arith)

-- The last second of day 511; the clock is read 90 seconds later.
abbrev late : Rtc
late = record {
  ram_enable = true;
  rom_bank = 1;
  ram_select = 8;
  has_rtc = true;
  seconds = 59;
  minutes = 59;
  hours = 23;
  day_low = 255;
  day_high = 1;
  latched = λ _. 0;
  last_time = 1000;
  latch_prev = 0;
  clock = λ _. 1090;
  clock_reads = 0;
}

late-IsClock : IsClock late
late-IsClock = ground arith

advance_rtc_running_example :
    IsClock (advance_rtc late 1090)
    × (total_seconds (advance_rtc late 1090) ≡ (total_seconds late + (1090 - 1000)) % (512 * 86400))
    × (bit (advance_rtc late 1090).day_high 7
        ≡ (if leb (512 * 86400) (total_seconds late + (1090 - 1000)) then 1 else bit 1 7))
    × (bit (advance_rtc late 1090).day_high 6 ≡ 0)
    × ((advance_rtc late 1090).last_time ≡ 1090)
advance_rtc_running_example =
    advance_rtc_running late 1090 late-IsClock refl (omega arith) (omega arith)

-- A ROM file whose header names MBC1 with 8 KB of RAM.
abbrev padded : ℕ → List ℕ → List ℕ
padded zero bytes = bytes
padded (suc n) bytes = n % 2 ^ 8 ∷ padded n bytes

abbrev image : List ℕ
image = padded 0x147 (3 ∷ 0 ∷ 2 ∷ padded 0x7eb6 [])

length-padded : (n : ℕ) (bytes : List ℕ) → length (padded n bytes) ≡ n + length bytes
length-padded zero bytes = omega arith
length-padded (suc n) bytes = omega (arith, length-padded n bytes)

-- It is 32 KB long.
length-image : length image ≡ 0x8000
length-image =
    length-padded 0x147 (3 ∷ 0 ∷ 2 ∷ padded 0x7eb6 []) ∙ omega (arith, length-padded 0x7eb6 [])

-- `a.gb`
abbrev game : List ℕ
game = 0x61 ∷ 0x2e ∷ 0x67 ∷ 0x62 ∷ []

abbrev disk : List ℕ → SramFile
disk path = record { content = some image; writable = true }

load-Boots_example : Boots image (load (λ i. 0xff) disk (λ _. 0) fresh game)
unfolding path_is_nes path_is_gba
load-Boots_example =
    load-Boots (λ i. 0xff) disk (λ _. 0) fresh game image refl refl refl
      (omega (arith, length-image)) (omega (arith, length-image))
