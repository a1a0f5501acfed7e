-- ===== src/Tests/Saves.antt =====
-- The theorems on save states at a concrete machine and disk.
use open_carbon.Base.{ℕ, ◌+◌, List, [], ◌∷◌, none, some, true, false, ◌≡◌, refl, arith, inl}
use open_carbon.State.{apply_stereo}
use open_carbon.Memory.{apu_call}
use open_carbon.System.Ring
use open_carbon.System.Frame.{System}
use open_carbon.System.SaveFile.{Disk, save_state, load_state, state_bytes, preview_path}
use open_carbon.System.StateBlocks.{wram_block}
use open_carbon.System.SaveFile.Layout.{first, later}
use open_carbon.System.SaveFile.Holds.{Savable, restored, state_bytes-Part}
use open_carbon.System.SaveFile.Restore.{load_state-save_state, load_state-save_state_other}
use open_carbon.System.SaveFile.Slots.{
  SlotInfo, load_slot_previews, load_slot_previews-save_state, slot_title, is_text,
}
use open_carbon.Tests.Data.{adding, drawing}

abbrev stamp : List ℕ
stamp = b'2' ∷ b'0' ∷ b'2' ∷ b'6' ∷ []

abbrev title : List ℕ
title = b'T' ∷ b'E' ∷ b'S' ∷ b'T' ∷ []

-- A file of three bytes in every slot.
abbrev disk : Disk
disk = record {
  states = λ path. some (record { length = 3; bytes = λ j. 7 });
  previews = λ path. none;
  writable = λ path. true;
}

abbrev saved : System
saved = record { machine = adding; frame_count = 40; ring = record { samples = λ i. 5; fill = 9 } }

abbrev playing : System
playing = record {
  machine = drawing;
  frame_count = 41;
  ring = record { samples = λ i. 6; fill = 10 };
}

adding-Savable : Savable adding
adding-Savable = record {
  sp_range = omega arith;
  pc_range = omega arith;
  hdma_src_range = omega arith;
  hdma_dst_range = omega arith;
  hdma_length_range = omega arith;
  bank_low_range = omega arith;
  bank_high_range = omega arith;
}

load_state-save_state_example :
    load_state title 1 0 (save_state stamp title 1 0 saved disk) playing ≡ record playing {
      machine = apu_call (restored adding drawing) apply_stereo;
      ring = Ring.clear playing.ring;
    }
load_state-save_state_example =
    load_state-save_state stamp title 1 0 saved playing disk refl adding-Savable

load_state-save_state_other_example :
    load_state title 2 0 (save_state stamp title 1 0 saved disk) playing
    ≡ load_state title 2 0 disk playing
load_state-save_state_other_example =
    load_state-save_state_other stamp title title 1 2 0 0 saved playing disk
      (inl (λ same. absurd (omega arith)))

state_bytes-Part_example : state_bytes stamp adding (0xd8 + 0) ≡ adding.wram 0
state_bytes-Part_example =
    state_bytes-Part stamp adding wram_block 0 (later (later (later first))) (omega arith)

abbrev empty_slots : ℕ → SlotInfo
empty_slots i = record { title = []; timestamp = []; preview = []; empty = true }

load_slot_previews-save_state_example :
    load_slot_previews title 0 (save_state stamp title 1 0 saved disk) empty_slots 1 ≡ record {
      title = slot_title 1;
      timestamp = stamp;
      preview = preview_path title 1 0;
      empty = false;
    }
unfolding is_text
load_slot_previews-save_state_example =
    load_slot_previews-save_state stamp title 1 0 saved disk empty_slots (omega arith) refl refl
      (omega arith)
