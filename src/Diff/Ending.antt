-- ===== src/Diff/Ending.antt =====
-- The ways in which the loop of `gbd_run_frame_test` of carbon-pc/src/diff/GbDiffApi.cpp ends.
use open_carbon.Base.{
  ℕ, zero, suc, ◌+◌, ◌%◌, ◌^◌, ◌≤◌, ◌<◌, ◌≡◌, ◌≢◌, [], ◌∷◌, Bool-cases, inl, inr, List, Bool, true,
  false, ◌==◌, arith, ==_iff, ◌&&◌,
}
use open_carbon.Memory.{read8}
use open_carbon.System.Frame.{Stereo, System, run_instruction, finish_frame}
use open_carbon.Diff.{test_loop, stop_at, result_regs, at_ld_bb}

-- A number of rounds of the frame loop.
abbrev pub rounds : Stereo → ℕ → System → System
rounds stereo zero s = s
rounds stereo (suc n) s = rounds stereo n (run_instruction stereo s)

-- The processor is not halted and stands before LD B,B, where the tool asks for a stop there.
abbrev pub StopsAt : Bool → System → Type 0
StopsAt stops s =
    (stops ≡ true) × (s.machine.regs.halted ≡ 0) × (read8 s.machine s.machine.regs.pc ≡ 0x40)

-- Nothing ends the frame before `k` instructions.
abbrev pub GoesOn : Stereo → Bool → ℕ → System → Type 0
GoesOn stereo stops k s =
    (j : ℕ)
    → j < k
    → (¬ StopsAt stops (rounds stereo j s)) × ((rounds stereo j s).machine.screen.frame_done ≡ 0)

-- What is reported before an LD B,B.
abbrev pub before_ld_bb : System → System × ℕ × List ℕ
before_ld_bb s =
    let m = s.machine in
    let moved = record (m.regs) { ticks = 0; pc = (m.regs.pc + 1) % 2 ^ 16 } in
    (
      record s { machine = record m { regs = moved } },
      2,
      m.regs.b ∷ m.regs.c ∷ m.regs.d ∷ m.regs.e ∷ m.regs.h ∷ m.regs.l ∷ [],
    )

-- How the frame of a test ends: with the budget, with the first instruction that completes the frame, or
-- before the first LD B,B. Only the last writes to the tool's buffer, which held `regs`.
pub data Ends (stereo : Stereo) (stops : Bool) (n : ℕ) (s : System) (regs : List ℕ)
    : System × ℕ × List ℕ → Type 0 where
  out_of_budget :
      GoesOn stereo stops n s
      → (rounds stereo n s).machine.screen.frame_done ≡ 0
      → Ends stereo stops n s regs (rounds stereo n s, 0, regs)
  frame_over :
      (k : ℕ)
      → k ≤ n
      → GoesOn stereo stops k s
      → (rounds stereo k s).machine.screen.frame_done ≢ 0
      → Ends stereo stops n s regs (finish_frame (rounds stereo k s), 1, regs)
  stopped_at :
      (k : ℕ)
      → k < n
      → GoesOn stereo stops k s
      → StopsAt stops (rounds stereo k s)
      → Ends stereo stops n s regs (before_ld_bb (rounds stereo k s))

-- The tool's test for a stop.
stops_at : (stops : Bool) (s : System) → (stops && at_ld_bb s.machine) ≡ true → StopsAt stops s
unfolding at_ld_bb
stops_at stops s at = ground arith

no_stop : (stops : Bool) (s : System) → (stops && at_ld_bb s.machine) ≡ false → ¬ StopsAt stops s
unfolding at_ld_bb
no_stop stops s off (asked, running, there) = ground arith

module _ (stereo : Stereo) where
  GoesOn-suc :
      (stops : Bool) (k : ℕ) (s : System)
      → ¬ StopsAt stops s
      → s.machine.screen.frame_done ≡ 0
      → GoesOn stereo stops k (run_instruction stereo s)
      → GoesOn stereo stops (suc k) s
  GoesOn-suc stops k s free h later zero below = (free, h)
  GoesOn-suc stops k s free h later (suc j) below = later j (omega arith)

  -- An end after the first instruction is an end of the whole.
  Ends-suc :
      (stops : Bool) (n : ℕ) (s : System) (regs : List ℕ) (r : System × ℕ × List ℕ)
      → ¬ StopsAt stops s
      → s.machine.screen.frame_done ≡ 0
      → Ends stereo stops n (run_instruction stereo s) regs r
      → Ends stereo stops (suc n) s regs r
  Ends-suc stops n s regs _ free h (out_of_budget on running) =
      out_of_budget (GoesOn-suc stops n s free h on) running
  Ends-suc stops n s regs _ free h (frame_over k below on done) =
      frame_over (suc k) (omega arith) (GoesOn-suc stops k s free h on) done
  Ends-suc stops n s regs _ free h (stopped_at k below on at) =
      stopped_at (suc k) (omega arith) (GoesOn-suc stops k s free h on) at

  pub test_loop-Ends :
      (stops : Bool) (n : ℕ) (s : System) (regs : List ℕ)
      → s.machine.screen.frame_done ≡ 0
      → Ends stereo stops n s regs (test_loop stereo stops n s regs)
  unfolding test_loop stop_at result_regs
  test_loop-Ends stops zero s regs h = out_of_budget (λ j below. absurd (omega arith)) h
  test_loop-Ends stops (suc n) s regs h =
      let s' = run_instruction stereo s in
      let b = s'.machine.screen.frame_done == 0 in
      elim (Bool-cases (stops && at_ld_bb s.machine)) [
        | inl at ↦
            rw at
              (stopped_at 0 (omega arith) (λ j below. absurd (omega arith)) (stops_at stops s at))
        | inr off ↦ rw off (elim (Bool-cases b) [
          | inl on ↦ rw on (
              Ends-suc stops n s regs _ (no_stop stops s off) h
                (test_loop-Ends stops n s' regs ((==_iff s'.machine.screen.frame_done 0).0 on)))
          | inr done ↦ rw done (
              frame_over 1 (omega arith)
                (GoesOn-suc stops 0 s (no_stop stops s off) h (λ j below. absurd (omega arith)))
                (ground (arith, done)))
        ])
      ]
