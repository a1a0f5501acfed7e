-- ===== src/Video/Lcd/Scanline.antt =====
-- `RenderScanline` of carbon-pc/src/gb/Video.cpp: what drawing a line leaves alone.
use open_carbon.Base.{if◌then◌else◌, Bool, true, false}
use open_carbon.State.{Machine}
use open_carbon.Video.Drawn.{
  DrawnLine, DrawnLine-refl, DrawnLine-trans, render_bg-DrawnLine, render_window-DrawnLine,
  render_sprites-DrawnLine,
}
use open_carbon.Video.Lcd.{render_scanline}

-- A step that is made if a test passes.
when-DrawnLine :
    (test : Bool) (m m' : Machine) → DrawnLine m m' → DrawnLine m (if test then m' else m)
when-DrawnLine true m m' d = d
when-DrawnLine false m m' d = DrawnLine-refl m

pub render_scanline-DrawnLine : (m : Machine) → DrawnLine m (render_scanline m)
unfolding render_scanline
render_scanline-DrawnLine m = DrawnLine-trans m _ _ (when-DrawnLine _ m _ (render_bg-DrawnLine m)) (
    DrawnLine-trans _ _ _ (when-DrawnLine _ _ _ (render_window-DrawnLine _))
      (when-DrawnLine _ _ _ (render_sprites-DrawnLine _)))
