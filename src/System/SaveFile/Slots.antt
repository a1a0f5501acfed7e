-- ===== src/System/SaveFile/Slots.antt =====
-- `LoadSlotPreviews` of carbon-pc/src/gb/System.cpp: what the pause menu shows of the three slots.
use open_carbon.Base.{
  ℕ, zero, suc, ◌+◌, ◌≤◌, ◌<◌, List, [], ◌∷◌, Option, none, some, Bool, true, false, ◌≡◌, refl,
  arith, same_self, get_or, length, ltb, ◌==◌, ◌&&◌, not, if◌then◌else◌, Bytes, u8,
}
use open_carbon.State.{Machine}
use open_carbon.Cart.Load.{c_string}
use open_carbon.System.Frame.{System}
use open_carbon.System.SaveFile.{
  Disk, state_path, preview_path, state_bytes, overwrite, write_state, save_state,
}
use open_carbon.System.StateBlocks.{StateFile, state_size, state_blocks}
use open_carbon.System.SaveFile.Layout.{ordered, write_blocks-before}

-- `SaveSlotInfo`
pub record SlotInfo : Type 0 where
  pub title : List ℕ
  pub timestamp : List ℕ
  pub preview : List ℕ
  pub empty : Bool

-- `Slot ` and the number that the player sees
abbrev pub slot_title : ℕ → List ℕ
slot_title i = b'S' ∷ b'l' ∷ b'o' ∷ b't' ∷ b' ' ∷ (b'1' + i) ∷ []

abbrev pub empty_title : ℕ → List ℕ
empty_title i = b'E' ∷ b'm' ∷ b'p' ∷ b't' ∷ b'y' ∷ b' ' ∷ slot_title i

-- The buffer that the first bytes of the file are read to is 0x33 zeros.
abbrev pub shown : StateFile → Bytes
shown file j = if ltb j 0x32 && ltb j file.length then file.bytes j else 0

unfoldable pub stamp_of : StateFile → List ℕ
stamp_of file = c_string (shown file) 0 0x33

unfoldable pub slot_info : List ℕ → ℕ → ℕ → Option StateFile → SlotInfo → SlotInfo
slot_info title game i none old = record old { title = empty_title i; empty = true }
slot_info title game i (some file) old = record {
  title = slot_title i;
  timestamp = stamp_of file;
  preview = preview_path title i game;
  empty = false;
}

-- `slots` is the array of three.
unfoldable pub load_slot_previews : List ℕ → ℕ → Disk → (ℕ → SlotInfo) → ℕ → SlotInfo
unfolding slot_info
load_slot_previews title game disk slots i =
    if ltb i 3
    then slot_info title game i (disk.states (state_path title i game)) (slots i)
    else slots i

-- The bytes of a text hold no zero.
unfoldable pub is_text : List ℕ → Bool
is_text [] = true
is_text (c ∷ rest) = not (c == 0) && is_text rest

pub c_string-text :
    (text : List ℕ) (buffer : Bytes) (i n : ℕ)
    → is_text text ≡ true
    → length text < n
    → ((k : ℕ) → k ≤ length text → buffer (i + k) ≡ get_or text k 0)
    → c_string buffer i n ≡ text
unfolding is_text
c_string-text text buffer i zero t l e = absurd (omega arith)
c_string-text [] buffer i (suc n) t l e = ground (arith, e 0)
c_string-text (c ∷ rest) buffer i (suc n) t l e =
    ground (arith, e 0, c_string-text rest buffer (i + 1) n, shifted)
  where
    shifted : (k : ℕ) → k ≤ length rest → buffer (i + 1 + k) ≡ get_or rest k 0
    shifted k l = ground (arith, e (k + 1))

pub state_bytes_stamp :
    (stamp : List ℕ) (m : Machine) (j : ℕ)
    → j < 0x32
    → state_bytes stamp m j ≡ (if ltb j 0x31 then get_or stamp j 0 else 0)
unfolding state_bytes ordered
state_bytes_stamp stamp m j l = ground (
  arith,
  write_blocks-before m state_size state_blocks (λ j. (if ltb j 0x31 then get_or stamp j 0 else 0))
      0x32 j refl l,
)

pub get_or-past : (xs : List ℕ) (k : ℕ) → length xs ≤ k → get_or xs k 0 ≡ 0
get_or-past [] k l = refl
get_or-past (x ∷ xs) zero l = absurd (omega arith)
get_or-past (x ∷ xs) (suc k) l = ground (arith, get_or-past xs k)

pub stamp_of-overwrite :
    (old : Option StateFile) (stamp : List ℕ) (m : Machine)
    → is_text stamp ≡ true
    → length stamp ≤ 0x31
    → stamp_of (overwrite old (state_bytes stamp m)) ≡ stamp
unfolding stamp_of overwrite
stamp_of-overwrite old stamp m t l =
    c_string-text stamp (shown (overwrite old (state_bytes stamp m))) 0 0x33 t (omega arith)
      (bytes old)
  where
    bytes :
        (old : Option StateFile) (k : ℕ)
        → k ≤ length stamp
        → shown (overwrite old (state_bytes stamp m)) (0 + k) ≡ get_or stamp k 0
    bytes none k within =
        let start : 0 + k ≡ k = omega arith in
        rw (start) (ground (arith, state_bytes_stamp stamp m k, get_or-past stamp k))
    bytes (some f) k within =
        let start : 0 + k ≡ k = omega arith in
        rw (start) (ground (arith, state_bytes_stamp stamp m k, get_or-past stamp k))

-- After a slot is saved to a writable file the pause menu shows it as used, with its number, the time
-- stamp and the path of its picture. The stamp is text of at most 0x31 bytes.
pub load_slot_previews-save_state :
    (stamp title : List ℕ) (slot game : ℕ) (s : System) (disk : Disk) (slots : ℕ → SlotInfo)
    → slot < 3
    → disk.writable (state_path title slot game) ≡ true
    → is_text stamp ≡ true
    → length stamp ≤ 0x31
    → load_slot_previews title game (save_state stamp title slot game s disk) slots slot ≡ record {
      title = slot_title slot;
      timestamp = stamp;
      preview = preview_path title slot game;
      empty = false;
    }
unfolding load_slot_previews save_state write_state slot_info
load_slot_previews-save_state stamp title slot game s disk slots l w t n =
    let small : u8 slot ≡ slot = omega arith in
    let inside : ltb slot 3 ≡ true = ground arith in
    rw
      (
        inside,
        small,
        w,
        same_self (state_path title slot game),
        stamp_of-overwrite (disk.states (state_path title slot game)) stamp s.machine t n,
      )
      refl
