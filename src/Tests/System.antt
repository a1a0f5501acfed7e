-- ===== src/Tests/System.antt =====
-- The theorems on the frame loop, the sample ring and the joypad at concrete states.
use open_carbon.Base.{ℕ, ◌*◌, ◌≤◌, ◌<◌, ◌≡◌, refl, arith, List, [], ◌∷◌, Bytes, get_or, min}
use open_carbon.Cpu.Valid.{RegsIsValid}
use open_carbon.System.Frame.{Stereo, System, run_instruction}
use open_carbon.System.Frame.Valid.{run_instruction-RegsIsValid}
use open_carbon.System.Ring.{Ring, drain}
use open_carbon.System.Ring.Fifo.{Holds, skip, drain-Holds}
use open_carbon.Tests.Data.{adding, adding-RegsIsValid}

-- Three frames of two samples.
abbrev queue : List ℕ
queue = 1 ∷ 2 ∷ 3 ∷ 4 ∷ 5 ∷ 6 ∷ []

abbrev ring : Ring
ring = record { samples = λ i. get_or queue i 9; fill = 3 }

ring-Holds : Holds ring queue
ring-Holds = record { filled = refl; stored = λ i below. in_queue i below; bounded = omega arith }
  where
    in_queue : (i : ℕ) → i < 6 → get_or queue i 9 ≡ get_or queue i 0
    in_queue i below = ground arith

abbrev stale : Bytes
stale _ = 77

drain-Holds_example :
    Holds (drain 2 ring stale).0 (skip (min 3 2 * 2) queue)
    × ((i : ℕ) → i < min 3 2 * 2 → (drain 2 ring stale).1 i ≡ get_or queue i 0)
    × ((i : ℕ) → min 3 2 * 2 ≤ i → (drain 2 ring stale).1 i ≡ 77)
drain-Holds_example = drain-Holds 2 ring queue stale ring-Holds

-- A sound library with a frame of samples ready.
abbrev stereo : Stereo
stereo = record { samples_avail = λ _. 1024; samples = λ _. queue }

abbrev running : System
running = record { machine = adding; frame_count = 31; ring = ring }

run_instruction-RegsIsValid_example :
    RegsIsValid (run_instruction stereo running).machine.regs
    × ((run_instruction stereo running).machine.apu_time ≤ 44)
run_instruction-RegsIsValid_example = run_instruction-RegsIsValid stereo running adding-RegsIsValid
