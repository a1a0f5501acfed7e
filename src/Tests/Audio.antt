-- ===== src/Tests/Audio.antt =====
-- The theorems on the audio thread at concrete players.
use open_carbon.Base.{
  ℕ, zero, suc, ◌+◌, ◌-◌, ◌*◌, List, [], ◌∷◌, true, ltb, ◌==◌, ◌≡◌, ◌⊎◌, refl, length,
}
use open_carbon.System.Ring.{Ring}
use open_carbon.Audio.Blocks.{HeapCaptureRun}
use open_carbon.Audio.Out.{can_wake}
use open_carbon.Audio.Thread.{
  Volume, Player, thread_turn, Played, start, step, thread, start_player,
}
use open_carbon.Audio.Thread.Line.{Lined, line, Played-Lined}
use open_carbon.Audio.Thread.Waits.{Played-wakes}
use open_carbon.Audio.Thread.Awake.{device_turns}

-- The volume in hundredths.
abbrev volume : Volume
volume = record {
  quiet = 0;
  full = 100;
  louder = λ x. x + 1;
  quieter = λ x. x - 1;
  past_full = λ x. ltb 100 x;
  past_floor = λ x. x == 0;
  mix = λ level sample. level * sample;
}

abbrev ring : Ring
ring = record { samples = λ i. 3; fill = 0x2000 }

-- The thread alone, for a number of steps.
abbrev player : ℕ → Player
player zero = start_player volume 0 1 (λ b i. b) ring
player (suc n) = thread_turn volume 0 1 (player n).place (player n)

player-Played : (n : ℕ) → Played volume 0 1 (player n)
player-Played zero = start (λ b i. b) ring
player-Played (suc n) = step (player-Played n) (thread (player n))

-- At its second wait, with both buffers queued.
Played-wakes_example :
    (can_wake (player 14).out ≡ true)
    ⊎ (can_wake (device_turns volume.mix (suc (length (player 14).out.mixed)) (player 14).out)
        ≡ true)
unfolding thread_turn start_player can_wake
Played-wakes_example = Played-wakes volume 0 1 (player-Played 14) refl

Played-Lined_example : Lined 0 1 (player 9).place (line (player 9))
Played-Lined_example = Played-Lined volume 0 1 (player-Played 9)

abbrev runs : List HeapCaptureRun
runs = record { capture = 0; offset = 4; length = 2; pool_offset = 1 } ∷ []
