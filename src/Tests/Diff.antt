-- ===== src/Tests/Diff.antt =====
-- The theorems on frames with a budget at a machine with its LCD switched on.
use open_carbon.Base.{◌≡◌, refl, update, [], ◌∷◌, true}
use open_carbon.Memory.{read8, map_read}
use open_carbon.Memory.Wram.{wram_read}
use open_carbon.System.Frame.{Stereo, System, run_frame}
use open_carbon.Diff.{test_loop, at_ld_bb, run_frame_limited, run_frame_test, frame_begin}
use open_carbon.Diff.Budget.{completed, Completes, run_frame_limited-run_frame, run_frame_test-Ends}
use open_carbon.Diff.Ending.{Ends}
use open_carbon.Tests.Data.{drawing}

abbrev stereo : Stereo
stereo = record { samples_avail = λ _. 0; samples = λ _. [] }

abbrev started : System
started = record {
  machine = drawing;
  frame_count = 3;
  ring = record { samples = λ _. 0; fill = 0 };
}

run_frame_limited-run_frame_example :
    run_frame stereo 201 started ≡ completed (run_frame_limited stereo 200 started)
run_frame_limited-run_frame_example = run_frame_limited-run_frame stereo 200 started refl

-- A machine that stands before LD B,B is stopped at once.
abbrev at_stop : System
at_stop = record started {
  machine = record drawing {
    regs = record (drawing.regs) { pc = 0xc000 };
    wram = update (drawing.wram) 0 0x40;
  };
}

run_frame_test-stop : (run_frame_test stereo 3 true at_stop (0 ∷ [])).1 ≡ 2
unfolding run_frame_test test_loop at_ld_bb read8 map_read wram_read
run_frame_test-stop = refl

run_frame_test-Ends_example :
    Ends stereo true 3
      (frame_begin at_stop)
      (0 ∷ [])
      (run_frame_test stereo 3 true at_stop (0 ∷ []))
    × Completes stereo 3 (frame_begin at_stop) (run_frame_test stereo 3 true at_stop (0 ∷ []))
run_frame_test-Ends_example = run_frame_test-Ends stereo 3 true at_stop (0 ∷ []) refl
