-- ===== src/System/Frame.antt =====
-- The frame loop of carbon-pc/src/gb/System.cpp: `RunInstruction` and `RunFrame`, with
-- `AudioEndInstruction` and `AudioPumpFrameSamples` of carbon-pc/src/gb/Audio.cpp.
pub mod Valid
use mathlib.Core.Option
use open_carbon.Base.{
  ℕ, zero, suc, ◌+◌, ◌/◌, ◌%◌, ◌^◌, List, Option, none, some, ltb, leb, ◌==◌, if◌then◌else◌,
}
use open_carbon.State.{Machine, ApuCall, end_frame, read_samples}
use open_carbon.Memory.{apu_call}
use open_carbon.Memory.Timer.{timer_step}
use open_carbon.Cpu.Step.{cpu_step, service_interrupts}
use open_carbon.Video.Lcd.{lcd_step}
use open_carbon.System.Ring.{Ring, append}

-- The answers of the sound library's stereo buffer, which depend on the calls made so far:
-- `samples_avail`, and the samples that `read_samples` would hand out.
pub record Stereo : Type 0 where
  pub samples_avail : List ApuCall → ℕ
  pub samples : List ApuCall → List ℕ

-- `GbSystem`, the machine and the sample ring. `frame_count` is an `int32_t`.
pub record System : Type 0 where
  pub machine : Machine
  pub frame_count : ℕ
  pub ring : Ring

unfoldable pub timer_tick : ℕ → Machine → Machine
timer_tick ticks m =
    let (t, flags) = timer_step m.timer m.ints.int_flags ticks in
    record m { timer = t; ints = record (m.ints) { int_flags = flags } }

-- `core.frameDone = 0; ++sys->frameCount;`
unfoldable pub finish_frame : System → System
finish_frame s = record s {
  machine = record (s.machine) { screen = record (s.machine.screen) { frame_done = 0 } };
  frame_count = (s.frame_count + 1) % 2 ^ 32;
}

module _ (stereo : Stereo) where
  unfoldable pub pump_samples : System → System
  pump_samples s =
      let calls = s.machine.apu.calls in
      let new = stereo.samples calls in
      let s' = record s { machine = apu_call s.machine read_samples } in
      if ltb (stereo.samples_avail calls) 1024
      then s
      else if leb s.frame_count 0x1e
      then s'
      else record s' { ring = append s.ring new }

  -- The time that register writes are stamped with is set between the CPU and the interrupts.
  unfoldable pub run_instruction : System → System
  run_instruction s =
      let (m1, ticks) = cpu_step s.machine in
      let (m2, more) = service_interrupts (record m1 { apu_time = ticks }) in
      let m3 = record m2 { apu_time = ticks + more } in
      let t = m3.apu_time / 2 ^ (m3.double_speed % 2 ^ 5) in
      let m4 = apu_call (lcd_step t m3) (end_frame t) in
      let s' = pump_samples (record s { machine = m4 }) in
      record s' { machine = timer_tick s'.machine.apu_time s'.machine }

  -- `while (core.frameDone == 0)`, with fuel; `none` means that the fuel ran out.
  unfoldable pub frame_loop : ℕ → System → Option System
  frame_loop zero s = none
  frame_loop (suc fuel) s =
      let rest = frame_loop fuel (run_instruction s) in
      if s.machine.screen.frame_done == 0 then rest else some s

  unfoldable pub run_frame : ℕ → System → Option System
  unfolding finish_frame
  run_frame fuel s =
      Option.map finish_frame
        (frame_loop fuel (record s { machine = record (s.machine) { apu_time = 0 } }))
