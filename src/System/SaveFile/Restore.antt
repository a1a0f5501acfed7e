-- ===== src/System/SaveFile/Restore.antt =====
-- `SaveState` and `LoadState` of carbon-pc/src/gb/System.cpp across the slots and the games.
use open_carbon.Base.{ℕ, List, true, false, ◌≡◌, ◌≢◌, ◌⊎◌, inl, inr, refl, same, u8, Bool-cases}
use open_carbon.State.{apply_stereo}
use open_carbon.Memory.{apu_call}
use open_carbon.System.Ring
use open_carbon.System.Frame.{System}
use open_carbon.System.SaveFile.{Disk, state_path, write_state, read_state, save_state, load_state}
use open_carbon.System.SaveFile.RoundTrip.{read_state-write_state}
use open_carbon.System.SaveFile.Holds.{Savable, restored}
use open_carbon.System.SaveFile.Paths.{same_sound, state_path-injective}

-- Loading a slot that was saved before brings back what the state holds, whatever stood in the file;
-- the sound chip keeps playing and the ring starts with silence. The file must be writable.
pub load_state-save_state :
    (stamp title : List ℕ) (slot game : ℕ) (s t : System) (disk : Disk)
    → disk.writable (state_path title (u8 slot) game) ≡ true
    → Savable s.machine
    → load_state title slot game (save_state stamp title slot game s disk) t ≡ record t {
      machine = apu_call (restored s.machine t.machine) apply_stereo;
      ring = Ring.clear t.ring;
    }
unfolding load_state save_state
load_state-save_state stamp title slot game s t disk w r =
    rw (read_state-write_state stamp title (u8 slot) game s.machine t.machine disk w r) refl

pub same-state_path :
    (title title' : List ℕ) (slot slot' game game' : ℕ)
    → (slot ≢ slot') ⊎ (game ≢ game')
    → same (state_path title slot game) (state_path title' slot' game') ≡ false
same-state_path title title' slot slot' game game' ne =
    elim (Bool-cases (same (state_path title slot game) (state_path title' slot' game'))) [
      | inl e ↦
          absurd (
            collide (state_path-injective title title' slot slot' game game' (same_sound _ _ e)) ne)
      | inr e ↦ e
    ]
  where
    collide : (game ≡ game') × (slot ≡ slot') → (slot ≢ slot') ⊎ (game ≢ game') → ⊥
    collide (g, s) (inl n) = n s
    collide (g, s) (inr n) = n g

-- Saving a slot leaves what loading another slot, or a slot of another game, gives.
pub load_state-save_state_other :
    (stamp title title' : List ℕ) (slot slot' game game' : ℕ) (s t : System) (disk : Disk)
    → (u8 slot ≢ u8 slot') ⊎ (game ≢ game')
    → load_state title' slot' game' (save_state stamp title slot game s disk) t
      ≡ load_state title' slot' game' disk t
unfolding load_state save_state read_state write_state
load_state-save_state_other stamp title title' slot slot' game game' s t disk ne =
    elim (Bool-cases (disk.writable (state_path title (u8 slot) game))) [
      | inl w ↦ rw (w, same-state_path title title' (u8 slot) (u8 slot') game game' ne) refl
      | inr w ↦ rw (w) refl
    ]
