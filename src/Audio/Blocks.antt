-- ===== src/Audio/Blocks.antt =====
-- The heap blocks of the audio thread: `FreshBlock`, `PickBlock`, `AllocateAudioBlocks` and
-- `FreeAudioBlocks` of carbon-pc/src/gb/Audio.cpp. The captured bytes are a parameter.
pub mod Launches
use mathlib.Core.Option
use open_carbon.Base.{
  ℕ, zero, suc, ◌+◌, ◌-◌, ◌*◌, ◌^◌, List, [], ◌∷◌, Option, none, some, Bool, true, false, ◌&&◌,
  ◌==◌, leb, ltb, min, if◌then◌else◌, Bytes, get_or,
}

-- `HeapCaptureRun`
pub record HeapCaptureRun : Type 0 where
  pub capture : ℕ
  pub offset : ℕ
  pub length : ℕ
  pub pool_offset : ℕ

-- `BlockPick`, with `none` for the capture -1.
pub data BlockPick : Type 0 where
  capture : Option ℕ → BlockPick
  previous_a : BlockPick
  previous_b : BlockPick

-- `heapBlocks`, `previousBlocks` and `launches`: a block is its place in the vector.
pub record Heap : Type 0 where
  pub blocks : ℕ → Bytes
  pub count : ℕ
  pub previous : Option (ℕ × ℕ)
  pub launches : ℕ

-- `kLaunchBlocks`, of which the last row serves the later launches, with a silent block.
unfoldable pub launch_blocks : ℕ → BlockPick × BlockPick
launch_blocks zero = (capture (some 0), capture (some 1))
launch_blocks (suc zero) = (capture (some 2), capture (some 3))
launch_blocks (suc (suc zero)) = (capture (some 4), capture (some 5))
launch_blocks (suc (suc (suc zero))) = (previous_b, capture (some 6))
launch_blocks (suc (suc (suc (suc zero)))) = (previous_b, capture (some 7))
launch_blocks (suc (suc (suc (suc (suc zero))))) = (previous_a, capture (some 8))
launch_blocks (suc (suc (suc (suc (suc (suc launch)))))) = (previous_a, capture none)

module _ (runs : List HeapCaptureRun) (pool : Bytes) where
  -- The runs of a capture over a block's bytes.
  unfoldable pub copy_runs : List HeapCaptureRun → ℕ → Bytes → Bytes
  copy_runs [] wanted bytes = bytes
  copy_runs (run ∷ rest) wanted bytes = copy_runs rest wanted (
      if run.capture == wanted
      then (λ j.
          (if leb run.offset j && ltb j (run.offset + run.length)
            then pool (run.pool_offset + (j - run.offset))
            else bytes j))
      else bytes)

  -- The samples of a fresh block.
  unfoldable pub captured : Option ℕ → Bytes
  unfolding copy_runs
  captured none i = 0
  captured (some wanted) i =
      let bytes = copy_runs runs wanted (λ j. 0) in bytes (i * 2) + bytes (i * 2 + 1) * 2 ^ 8

  unfoldable pub fresh_block : Option ℕ → Heap → ℕ × Heap
  unfolding captured
  fresh_block wanted h = (
    h.count,
    record h {
      blocks = λ b. (if b == h.count then captured wanted else h.blocks b);
      count = h.count + 1;
    },
  )

  -- `none` is a null pointer.
  unfoldable pub pick_block : BlockPick → Heap → Option ℕ × Heap
  unfolding fresh_block
  pick_block (capture wanted) h = let (b, h') = fresh_block wanted h in (some b, h')
  pick_block previous_a h = (Option.map (λ p. p.0) h.previous, h)
  pick_block previous_b h = (Option.map (λ p. p.1) h.previous, h)

  unfoldable pub pick_blocks : BlockPick → BlockPick → Heap → (Option ℕ × Option ℕ) × Heap
  unfolding pick_block
  pick_blocks pick_a pick_b h =
      let (a, h1) = pick_block pick_a h in let (b, h2) = pick_block pick_b h1 in ((a, b), h2)

  unfoldable pub allocate_blocks : Heap → (Option ℕ × Option ℕ) × Heap
  unfolding pick_blocks launch_blocks
  allocate_blocks h =
      let picks = launch_blocks h.launches in
      pick_blocks picks.0 picks.1 (record h { launches = h.launches + 1 })

unfoldable pub both : Option ℕ → Option ℕ → Option (ℕ × ℕ)
both none b = none
both (some a) none = none
both (some a) (some b) = some (a, b)

unfoldable pub free_blocks : Option ℕ → Option ℕ → Heap → Heap
unfolding both
free_blocks a b h = record h { previous = both a b }

abbrev pub first_heap : Heap
first_heap = record { blocks = λ b i. 0; count = 0; previous = none; launches = 0 }
