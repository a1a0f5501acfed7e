-- ===== src/System/Boot.antt =====
-- `DmgIoDefaults` of carbon-pc/src/gb/Memory.cpp, and `Init` and `Reset` of
-- carbon-pc/src/gb/System.cpp as far as they concern the machine.
pub mod Started
use open_carbon.Base.{ℕ, List, [], ◌∷◌, not, ◌==◌, if◌then◌else◌}
use open_carbon.State.{Machine, construct, connect_outputs}
use open_carbon.Memory.{write8, apu_write, apu_call, video_io_write}
use open_carbon.Memory.Timer.{timer_write}
use open_carbon.Cpu.Step.{cpu_reset}
use open_carbon.Video.Lcd.{video_reset}

abbrev pub Writes : Type 0
Writes = List (ℕ × ℕ)

-- `kApu`
unfoldable pub apu_defaults : Writes
apu_defaults =
    (0xff10, 0x80)
    ∷ (0xff11, 0xbf)
    ∷ (0xff12, 0xf3)
    ∷ (0xff14, 0xbf)
    ∷ (0xff16, 0x3f)
    ∷ (0xff17, 0x00)
    ∷ (0xff19, 0xbf)
    ∷ (0xff1a, 0x7f)
    ∷ (0xff1b, 0xff)
    ∷ (0xff1c, 0x9f)
    ∷ (0xff1e, 0xbf)
    ∷ (0xff20, 0xff)
    ∷ (0xff21, 0x00)
    ∷ (0xff22, 0x00)
    ∷ (0xff23, 0xbf)
    ∷ (0xff24, 0x77)
    ∷ (0xff25, 0xf3)
    ∷ (0xff26, 0xf1)
    ∷ []

unfoldable pub video_defaults : Writes
video_defaults =
    (0xff40, 0x91)
    ∷ (0xff42, 0)
    ∷ (0xff43, 0)
    ∷ (0xff45, 0)
    ∷ (0xff47, 0xfc)
    ∷ (0xff48, 0xff)
    ∷ (0xff49, 0xff)
    ∷ (0xff4a, 0)
    ∷ (0xff4b, 0)
    ∷ []

unfoldable pub timer_defaults : Writes
timer_defaults = (0xff04, 0xab) ∷ (0xff05, 0) ∷ (0xff06, 0) ∷ (0xff07, 0) ∷ []

unfoldable pub write_all : (Machine → ℕ → ℕ → Machine) → Writes → Machine → Machine
write_all w [] m = m
write_all w ((addr, value) ∷ rest) m = write_all w rest (w m addr value)

-- `TimerWrite` on the machine.
abbrev pub machine_timer_write : Machine → ℕ → ℕ → Machine
machine_timer_write m addr value = record m { timer = timer_write m.timer addr value }

unfoldable pub dmg_io_defaults : Machine → Machine
dmg_io_defaults m =
    if not (m.is_cgb == 0)
    then m
    else let m1 = apu_write (record m { joyp_select = 0xcf }) 0xff02 0x7c in
      let m2 = write_all machine_timer_write timer_defaults m1 in
      let m3 = record m2 { ints = record (m2.ints) { int_flags = 0xe1 } } in
      let m4 =
        write_all (video_io_write write8) video_defaults (write_all apu_write apu_defaults m3) in
      record m4 { ints = record (m4.ints) { int_enable = 0 } }

-- `Init` up to the audio thread and buffers. The LCD starts switched off: the reset of the video
-- registers comes after the CPU's writes to them.
unfoldable pub init : Machine → Machine
init m =
    let m1 = dmg_io_defaults (video_reset (cpu_reset (record m { is_cgb = 1 }))) in
    apu_call (apu_call m1 construct) connect_outputs

-- `Reset`: the registers, and a fresh sound chip whose outputs are not connected.
unfoldable pub reset : Machine → Machine
reset m = apu_call (cpu_reset m) construct
