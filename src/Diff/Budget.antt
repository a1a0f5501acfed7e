-- ===== src/Diff/Budget.antt =====
-- Frames with a budget of instructions, `gbd_run_frame_limited` and `gbd_run_frame_test` of
-- carbon-pc/src/diff/GbDiffApi.cpp, against `RunFrame` of carbon-pc/src/gb/System.cpp.
use open_carbon.Base.{
  ℕ, zero, suc, ◌≡◌, refl, List, Option, none, some, Bool, true, false, ◌==◌, if◌then◌else◌, arith,
  ap, ==_iff, ◌&&◌,
}
use open_carbon.System.Frame.{Stereo, System, run_instruction, finish_frame, frame_loop, run_frame}
use open_carbon.Diff.{
  limited_loop, run_frame_limited, frame_begin, test_loop, run_frame_test, at_ld_bb,
}
use open_carbon.Diff.Ending.{Ends, test_loop-Ends}
use mathlib.Core.Option

-- What a limited frame says of a frame.
abbrev pub completed : System × ℕ → Option System
completed (s, code) = if code == 1 then some s else none

-- What `RunFrame` makes of a test's frame: it is not over where the budget ends first, and it leaves what
-- a completed one leaves.
abbrev pub Completes : Stereo → ℕ → System → System × ℕ × List ℕ → Type 0
Completes stereo n s (s', code, regs') =
    (code ≡ 0 → Option.map finish_frame (frame_loop stereo (suc n) s) ≡ none)
    × (code ≡ 1 → Option.map finish_frame (frame_loop stereo (suc n) s) ≡ some s')

-- A loop's test that is known, and one that both loops make.
goes_on :
    (b : Bool) (x : Option System) (s : System) (y : Option System)
    → b ≡ true
    → Option.map finish_frame x ≡ y
    → Option.map finish_frame (if b then x else some s) ≡ y
goes_on true x s y b-true h = h
goes_on false x s y b-true h = ground arith

goes_on_inv :
    (b : Bool) (x : Option System) (s : System) (y : Option System)
    → b ≡ true
    → Option.map finish_frame (if b then x else some s) ≡ y
    → Option.map finish_frame x ≡ y
goes_on_inv true x s y b-true h = h
goes_on_inv false x s y b-true h = ground arith

both_turn :
    (b : Bool) (x : Option System) (s : System) (r : System × ℕ)
    → (b ≡ true → Option.map finish_frame x ≡ completed r)
    → Option.map finish_frame (if b then x else some s)
      ≡ completed (if b then r else (finish_frame s, 1))
both_turn true x s r h = h refl
both_turn false x s r h = refl

-- The same for the three ways on of a test's frame.
test_turn :
    (b stop : Bool) (rest finished stopped : System × ℕ × List ℕ) (P : System × ℕ × List ℕ → Type 0)
    → (stop ≡ true → P stopped)
    → (b ≡ true → P rest)
    → (b ≡ false → P finished)
    → P (if stop then stopped else if b then rest else finished)
test_turn b true rest finished stopped P x y z = x refl
test_turn true false rest finished stopped P x y z = y refl
test_turn false false rest finished stopped P x y z = z refl

module _ (stereo : Stereo) where
  frame_loop-done :
      (n : ℕ) (s : System)
      → (s.machine.screen.frame_done == 0) ≡ false
      → Option.map finish_frame (frame_loop stereo (suc n) s) ≡ some (finish_frame s)
  unfolding frame_loop
  frame_loop-done n s h =
      ap
        (λ b.
          Option.map finish_frame
            (if b then frame_loop stereo n (run_instruction stereo s) else some s))
        h

  frame_loop-on :
      (n : ℕ) (s : System)
      → s.machine.screen.frame_done ≡ 0
      → (y : Option System)
      → Option.map finish_frame (frame_loop stereo n (run_instruction stereo s)) ≡ y
      → Option.map finish_frame (frame_loop stereo (suc n) s) ≡ y
  unfolding frame_loop
  frame_loop-on n s h y e = goes_on (s.machine.screen.frame_done == 0) _ s y ((==_iff _ _).1 h) e

  limited_loop-frame_loop :
      (n : ℕ) (s : System)
      → s.machine.screen.frame_done ≡ 0
      → Option.map finish_frame (frame_loop stereo (suc n) s) ≡ completed (limited_loop stereo n s)
  unfolding frame_loop limited_loop
  limited_loop-frame_loop zero s h =
      goes_on (s.machine.screen.frame_done == 0) none s none ((==_iff _ _).1 h) refl
  limited_loop-frame_loop (suc n) s h =
      let s' = run_instruction stereo s in
      let b = s'.machine.screen.frame_done == 0 in
      let next = frame_loop stereo n (run_instruction stereo s') in
      goes_on (s.machine.screen.frame_done == 0) _ s _ ((==_iff _ _).1 h) (
        both_turn b next s' (limited_loop stereo n s') (λ on.
          goes_on_inv b next s' _ on
            (limited_loop-frame_loop n s' ((==_iff s'.machine.screen.frame_done 0).0 on))))

  test_loop-Completes :
      (stops : Bool) (n : ℕ) (s : System) (regs : List ℕ)
      → s.machine.screen.frame_done ≡ 0
      → Completes stereo n s (test_loop stereo stops n s regs)
  unfolding test_loop frame_loop
  test_loop-Completes stops zero s regs h = (
    λ e. goes_on (s.machine.screen.frame_done == 0) none s none ((==_iff _ _).1 h) refl,
    λ e. ground arith,
  )
  test_loop-Completes stops (suc n) s regs h =
      let s' = run_instruction stereo s in
      test_turn (s'.machine.screen.frame_done == 0) (stops && at_ld_bb s.machine) _ _ _
        (Completes stereo (suc n) s) (λ at. (λ e. ground arith, λ e. ground arith))
        (λ on.
          let later =
            test_loop-Completes stops n s' regs ((==_iff s'.machine.screen.frame_done 0).0 on) in
          (
            λ e. frame_loop-on (suc n) s h _ (later.0 e),
            λ e. frame_loop-on (suc n) s h _ (later.1 e),
          ))
        (λ ended.
          (λ e. ground arith, λ e. frame_loop-on (suc n) s h _ (frame_loop-done n s' ended)))

  -- Started with no frame done, a frame with a budget completes exactly if `RunFrame` ends within that
  -- many instructions, and then it leaves what `RunFrame` leaves.
  pub run_frame_limited-run_frame :
      (budget : ℕ) (s : System)
      → s.machine.screen.frame_done ≡ 0
      → run_frame stereo (suc budget) s ≡ completed (run_frame_limited stereo budget s)
  unfolding run_frame run_frame_limited frame_begin
  run_frame_limited-run_frame budget s h = limited_loop-frame_loop budget (frame_begin s) h

  -- Started with no frame done, the frame of a test ends in exactly one of three ways, with the first
  -- that comes. Reported as 0: none of the budget's instructions completed the frame or stood, with the
  -- stop asked for, at LD B,B, and the state is that after all of them. As 1: the frame is completed, and
  -- the end of the frame handled. As 2: an LD B,B of a processor that is not halted comes within the
  -- budget; the state is the one before it with the ticks cleared and the program counter moved on, and
  -- B, C, D, E, H and L are in the tool's buffer, which is left alone otherwise. If 1 is reported, then
  -- `RunFrame` ends within the budget and leaves the same, and if 0 is, it does not.
  pub run_frame_test-Ends :
      (budget : ℕ) (stops : Bool) (s : System) (regs : List ℕ)
      → s.machine.screen.frame_done ≡ 0
      → Ends stereo stops budget (frame_begin s) regs (run_frame_test stereo budget stops s regs)
        × Completes stereo budget (frame_begin s) (run_frame_test stereo budget stops s regs)
  unfolding run_frame_test frame_begin
  run_frame_test-Ends budget stops s regs h = (
    test_loop-Ends stereo stops budget (frame_begin s) regs h,
    test_loop-Completes stops budget (frame_begin s) regs h,
  )
