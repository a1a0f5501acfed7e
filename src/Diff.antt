-- ===== src/Diff.antt =====
-- The comparison tool's entry points, carbon-pc/src/diff/GbDiffApi.cpp: the blocks' addresses, frames
-- with a budget of instructions, the text of the serial port and cartridges of a given kind. A number
-- that the tool passes as an `int32_t` is not negative.
pub mod Ending
pub mod Budget
use open_carbon.Base.{
  ℕ, zero, suc, ◌+◌, ◌-◌, ◌/◌, ◌%◌, ◌^◌, List, [], ◌∷◌, ◌++◌, Option, none, some, Bool, true, false,
  not, ◌&&◌, ◌==◌, if◌then◌else◌, Bytes, u8, min, length,
}
use open_carbon.State.{Machine, SramFile}
use open_carbon.System.Image.{image_defaults}
use open_carbon.Memory.{read8}
use open_carbon.Cart.{read_by}
use open_carbon.Cart.Load.{Mapper, plain, banked1, banked3, banked5, build}
use open_carbon.System.Frame.{Stereo, System, run_instruction, finish_frame}

-- The address in the original program and the size of a block; `none` for a null pointer.
unfoldable pub block_info : ℕ → Option (ℕ × ℕ)
block_info which =
    if which == 0
    then some (0x71001b1bd8, 0x71001b1c72 - 0x71001b1bd8)
    else if which == 1
    then some (0x7100223300, 0x710024c010 - 0x7100223300)
    else if which == 2
    then some (0x710024d030, 0x7100255062 - 0x710024d030)
    else if which == 3
    then some (0x710024cff8, 1)
    else if which == 4
    then some (0x71001b2818, 1)
    else none

-- `g_serial` and `g_serialByte`
pub record Serial : Type 0 where
  pub text : List ℕ
  pub byte : ℕ

unfoldable pub serial_capture : Serial → ℕ → ℕ → Serial
serial_capture s addr value =
    if addr % 2 ^ 16 == 0xff01
    then record s { byte = value }
    else if addr % 2 ^ 16 == 0xff02 && value == 0x81
    then record s { text = s.text ++ (s.byte ∷ []) }
    else s

-- The first `n` entries.
abbrev pub first : ℕ → List ℕ → List ℕ
first zero xs = []
first (suc n) [] = []
first (suc n) (x ∷ xs) = x ∷ first n xs

-- What is copied out: the text is kept, the samples are dropped.
unfoldable pub take_serial : ℕ → Serial → List ℕ
take_serial limit s = first (min (length s.text) limit) s.text

unfoldable pub take_samples : ℕ → List ℕ → List ℕ × List ℕ
take_samples limit captured = (first (min (length captured) limit) captured, [])

-- `gbd_reset_state`: the globals and the text; the cartridge, the sound library, the frame count and
-- the byte of the serial port stay.
unfoldable pub reset_state : System → Serial → System × Serial
reset_state s serial = (
  record s { machine = image_defaults s.machine.cart s.machine.apu },
  record serial { text = [] },
)

-- `gbd_frame_begin`
unfoldable pub frame_begin : System → System
frame_begin s = record s { machine = record (s.machine) { apu_time = 0 } }

-- `cpu.halted == 0 && Read8(cpu.pc) == 0x40`
unfoldable pub at_ld_bb : Machine → Bool
at_ld_bb m = m.regs.halted == 0 && read8 m m.regs.pc == 0x40

-- The registers that a test leaves its result in, and the state in which the original is stopped.
unfoldable pub result_regs : Machine → List ℕ
result_regs m = m.regs.b ∷ m.regs.c ∷ m.regs.d ∷ m.regs.e ∷ m.regs.h ∷ m.regs.l ∷ []

unfoldable pub stop_at : System → System
stop_at s = record s {
  machine = record (s.machine) {
    regs = record (s.machine.regs) { ticks = 0; pc = (s.machine.regs.pc + 1) % 2 ^ 16 };
  };
}

module _ (stereo : Stereo) where
  -- `gbd_run_instruction`
  unfoldable pub run_one : System → System × ℕ
  run_one s = let s' = run_instruction stereo s in (s', s'.machine.screen.frame_done)

  -- The loop of `gbd_run_frame_limited`.
  unfoldable pub limited_loop : ℕ → System → System × ℕ
  limited_loop zero s = (s, 0)
  limited_loop (suc left) s =
      let s' = run_instruction stereo s in
      let rest = limited_loop left s' in
      if s'.machine.screen.frame_done == 0 then rest else (finish_frame s', 1)

  unfoldable pub run_frame_limited : ℕ → System → System × ℕ
  unfolding limited_loop frame_begin
  run_frame_limited budget s = limited_loop budget (frame_begin s)

  -- The loop of `gbd_run_frame_test`. `regs` is what the tool's buffer holds.
  unfoldable pub test_loop : Bool → ℕ → System → List ℕ → System × ℕ × List ℕ
  test_loop stops zero s regs = (s, 0, regs)
  test_loop stops (suc left) s regs =
      let s' = run_instruction stereo s in
      let rest = test_loop stops left s' regs in
      if stops && at_ld_bb s.machine
      then (stop_at s, 2, result_regs s.machine)
      else if s'.machine.screen.frame_done == 0
      then rest
      else (finish_frame s', 1, regs)

  unfoldable pub run_frame_test : ℕ → Bool → System → List ℕ → System × ℕ × List ℕ
  unfolding test_loop frame_begin
  run_frame_test budget stops s regs = test_loop stops budget (frame_begin s) regs

-- `gbd_cart_create`: the ROM's padding lies behind `rom_size` in the buffer.
unfoldable pub mapper_of_kind : ℕ → Bool → Mapper
mapper_of_kind kind rtc =
    if kind == 0
    then plain
    else if kind == 1
    then banked1 true
    else if kind == 3
    then banked3 true rtc
    else banked5 true false

unfoldable pub cart_create :
    (List ℕ → SramFile) → (ℕ → ℕ) → Machine → ℕ → Bytes → ℕ → ℕ → Bool → Machine × ℕ
unfolding build mapper_of_kind
cart_create files clock m kind buffer rom_size ram_size rtc =
    let (m', cart) = build files clock m buffer rom_size ram_size [] (mapper_of_kind kind rtc) in
    (record m' { cart = cart }, read_by m' cart 0x143 / 2 ^ 7 % 2)
