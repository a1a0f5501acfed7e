-- ===== src/Tests/App.antt =====
-- The theorems on the application layer after concrete rounds.
use mathlib.Core.Option
use open_carbon.Base.{ℕ, zero, suc, ◌<◌, [], ◌∷◌, none, some, true, false, ◌≡◌, refl, arith, List}
use open_carbon.State.{SramFile, Machine, system_only}
use open_carbon.Cart.Load.{Loaded, load, path_is_nes, path_is_gba, load_mapper, mapper_of, read_rom}
use open_carbon.System.Frame.{System, Stereo}
use open_carbon.System.SaveFile.{Disk, load_state}
use open_carbon.System.SaveFile.Slots.{SlotInfo}
use open_carbon.App.Input.{Npad, input_update}
use open_carbon.App.State.{App, Host, Round, GameEntry}
use open_carbon.App.Update.{update_input, find_title}
use open_carbon.App.Run.{Drawing, run_round, Reached, start, round, app_init, close_game}
use open_carbon.App.Run.Exit.{close_game-slots}
use open_carbon.App.Valid.{is_valid}
use open_carbon.App.Valid.Reached.{Reached-valid}
use open_carbon.App.Valid.Running.{Launches, Reached-goes_on}
use open_carbon.Tests.Data.{adding}

-- Two titles: a cartridge without banks, and one of the other console.
abbrev plain_title : GameEntry
plain_title = record { id = 0; rom_name = b'a' ∷ [] }

abbrev gba_title : GameEntry
gba_title = record { id = 1; rom_name = b'.' ∷ b'g' ∷ b'b' ∷ b'a' ∷ [] }

-- A ROM's header of zeros.
abbrev header : ℕ → List ℕ
header zero = []
header (suc n) = 0 ∷ header n

abbrev file : SramFile
file = record { content = some (header 0x150); writable = true }

abbrev host : Host
host = record {
  titles = plain_title ∷ gba_title ∷ [];
  files = λ path. file;
  past = λ i. 0xff;
  clock = λ k. 0;
}

abbrev stereo : Stereo
stereo = record { samples_avail = λ calls. 0; samples = λ calls. [] }

abbrev disk : Disk
disk = record { states = λ path. none; previews = λ path. none; writable = λ path. true }

abbrev system : System
system = record { machine = adding; frame_count = 0; ring = record { samples = λ i. 0; fill = 0 } }

abbrev empty_slots : ℕ → SlotInfo
empty_slots i = record { title = []; timestamp = []; preview = []; empty = true }

-- Nothing pressed, and the direction down pressed.
abbrev idle : Npad
idle = record { connected = true; buttons = 0; lx = 0; ly = 0; rx = 0; ry = 0 }

abbrev down : Round
down = record {
  pad = record { connected = true; buttons = 0x8000; lx = 0; ly = 0; rx = 0; ry = 0 };
  stamp = [];
}

abbrev drawn : Drawing
drawn = record {
  anim_state = 2;
  sprite_x = 320;
  fade = 0;
  fade_in = 1000;
  tint = 1000;
  transition = false;
  slid_out = false;
}

abbrev opened : App
opened = app_init system disk empty_slots idle

-- The second title is selected.
abbrev moved : App
moved = Option.get_or (run_round host stereo 10 down drawn opened) opened

moved-Reached : Reached host stereo 10 moved
unfolding run_round app_init update_input input_update Option.bind
moved-Reached = round down drawn (start system disk empty_slots idle) refl

Reached-valid_example : is_valid 2 moved ≡ true
Reached-valid_example = Reached-valid host stereo 10 moved-Reached

-- The cartridges that the two files give.
abbrev gba_cart : Loaded
gba_cart = record { cart = system_only; system_type = 2; title = []; state_path = [] }

abbrev name_of : ℕ → GameEntry
name_of zero = plain_title
name_of (suc s) = gba_title

abbrev carts : ℕ → Machine → Machine × Loaded
carts s m =
    Option.get_or (load host.past host.files host.clock m (name_of s).rom_name) (m, gba_cart)

host-Launches : Launches host
unfolding find_title load path_is_nes path_is_gba load_mapper mapper_of read_rom
host-Launches = record { title = name_of; found = named; cart = carts; loads = there }
  where
    named : (s : ℕ) → s < 2 → find_title s host.titles ≡ some (name_of s)
    named zero l = refl
    named (suc zero) l = refl
    named (suc (suc s)) l = absurd (omega arith)

    there :
        (s : ℕ)
        → s < 2
        → (m : Machine)
        → load host.past host.files host.clock m (name_of s).rom_name ≡ some (carts s m)
    there zero l m = refl
    there (suc s) l m = refl

Reached-goes_on_example : (b : App) × (update_input host down moved ≡ some b)
Reached-goes_on_example = Reached-goes_on host host-Launches stereo 10 down moved-Reached

-- A game of the console is running.
abbrev running : App
running = record moved { current = some (record gba_cart { system_type = 0; title = b'T' ∷ [] }) }

close_game-slots_example :
    load_state (b'T' ∷ []) 2 0 (close_game [] running.current running).disk system
    ≡ load_state (b'T' ∷ []) 2 0 running.disk system
close_game-slots_example = close_game-slots [] (b'T' ∷ []) 2 0 running system (omega arith)
