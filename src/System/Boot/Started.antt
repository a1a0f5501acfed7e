-- ===== src/System/Boot/Started.antt =====
-- The machine that `Init` of carbon-pc/src/gb/System.cpp leaves.
use open_carbon.Base.{ℕ, ◌≡◌, refl, ◌∙◌, ap, arith}
use open_carbon.State.{Machine, construct, connect_outputs}
use open_carbon.Memory.{apu_call}
use open_carbon.Memory.Frame.{Untouched, Untouched-trans, write8-Untouched}
use open_carbon.Cpu.Bus.{with_regs}
use open_carbon.Cpu.Step.{cpu_reset, boot_regs}
use open_carbon.Video.Lcd.{zero_video, video_reset, lcd_step, lcd_off}
use open_carbon.System.Boot.{init, dmg_io_defaults}

cpu_reset-Untouched : (m : Machine) → Untouched (with_regs m (boot_regs m.regs)) (cpu_reset m)
unfolding cpu_reset
cpu_reset-Untouched m =
    Untouched-trans _ _ _ (write8-Untouched _ _ _)
      (Untouched-trans _ _ _ (write8-Untouched _ _ _) (write8-Untouched _ _ _))

-- The defaults of a monochrome console are not applied to a colour one.
dmg_io_defaults-cgb : (m : Machine) → m.is_cgb ≡ 1 → dmg_io_defaults m ≡ m
unfolding dmg_io_defaults
dmg_io_defaults-cgb m colour = rw colour refl

-- A step of the LCD with all its registers zero.
lcd_step-off :
    (ticks : ℕ) (m : Machine)
    → m.video ≡ zero_video
    → ((lcd_step ticks m).video ≡ zero_video)
      × ((lcd_step ticks m).screen.frame_done ≡ m.screen.frame_done)
unfolding lcd_step lcd_off
lcd_step-off ticks m off = ground (arith, off)

-- The machine before the sound chip is set up.
abbrev before_sound : Machine → Machine
before_sound m = video_reset (cpu_reset (record m { is_cgb = 1 }))

init-before_sound :
    (m : Machine) → init m ≡ apu_call (apu_call (before_sound m) construct) connect_outputs
unfolding init video_reset
init-before_sound m =
    let colour = (cpu_reset-Untouched (record m { is_cgb = 1 })).is_cgb in
    ap (λ t. apu_call (apu_call t construct) connect_outputs)
      (dmg_io_defaults-cgb (before_sound m) colour)

-- After `Init`, whatever the machine was before, the console is in colour mode at the cartridge's
-- entry point with the registers of the boot ROM, and all the LCD's registers are zero, so the LCD
-- is off: steps of the LCD, with any ticks, leave it off and end no frame.
pub init-Started :
    (m : Machine) (ticks : ℕ)
    → ((init m).is_cgb ≡ 1)
      × ((init m).regs ≡ boot_regs m.regs)
      × ((init m).video ≡ zero_video)
      × ((lcd_step ticks (init m)).video ≡ zero_video)
      × ((lcd_step ticks (init m)).screen.frame_done ≡ m.screen.frame_done)
unfolding video_reset apu_call
init-Started m ticks =
    let kept = cpu_reset-Untouched (record m { is_cgb = 1 }) in
    let ready = apu_call (apu_call (before_sound m) construct) connect_outputs in
    let off = lcd_step-off ticks ready refl in
    rw (init-before_sound m) (kept.is_cgb, kept.regs, refl, off.0, off.1 ∙ kept.frame_done)
