-- ===== src/Tests/Video.antt =====
-- The LCD's theorems at concrete machines.
use open_carbon.Base.{◌+◌, ◌*◌, ◌%◌, ◌≡◌, refl, arith, ltb, leb, ◌&&◌, if◌then◌else◌}
use open_carbon.State.{Machine}
use open_carbon.Video.Lcd.{lcd_step, mode_length}
use open_carbon.Video.Lcd.Position.{IsTimed, position, frame_ticks, lcd_step-position}
use open_carbon.Video.Lcd.FrameEnd.{lcd_step-frame_done}
use open_carbon.Tests.Data.{drawing}

-- The end of line 143's H-blank, from where V-blank begins.
abbrev ending : Machine
ending = record drawing {
  video = record (drawing.video) { stat = 0 };
  screen = record (drawing.screen) { lcd_tick_accum = 200 };
}

ending-IsTimed : IsTimed ending
unfolding mode_length
ending-IsTimed = ground arith

lcd_step-position_example :
    IsTimed (lcd_step 24 ending)
    × (position (lcd_step 24 ending) ≡ (position ending + 24) % frame_ticks)
lcd_step-position_example = lcd_step-position 24 ending (omega arith) ending-IsTimed refl refl

lcd_step-frame_done_example :
    (lcd_step 24 ending).screen.frame_done
    ≡ (if ltb (position ending) (144 * 456) && leb (144 * 456) (position ending + 24) then 1 else 0)
lcd_step-frame_done_example = lcd_step-frame_done 24 ending (omega arith) ending-IsTimed refl refl
