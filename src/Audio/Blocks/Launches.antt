-- ===== src/Audio/Blocks/Launches.antt =====
-- The blocks of every launch of the audio thread of carbon-pc/src/gb/Audio.cpp.
use mathlib.Core.Option
use open_carbon.Base.{
  ℕ, zero, suc, ◌+◌, ◌≤◌, ◌<◌, List, Option, some, Bytes, ◌≡◌, ◌≢◌, refl, arith, ap, ◌∙◌,
}
use open_carbon.Audio.Blocks.{
  Heap, HeapCaptureRun, BlockPick, capture, previous_a, previous_b, launch_blocks, fresh_block,
  pick_block, pick_blocks, allocate_blocks, free_blocks, both, first_heap,
}

-- Two blocks of the heap that differ.
pub record Differ (h : Heap) (a b : Option ℕ) : Type 0 where
  pub first_block : ℕ
  pub second_block : ℕ
  pub is_first : a ≡ some first_block
  pub is_second : b ≡ some second_block
  pub apart : first_block ≢ second_block
  pub first_below : first_block < h.count
  pub second_below : second_block < h.count

-- The blocks of the launch before.
pub record Launched (h : Heap) : Type 0 where
  pub block_a : ℕ
  pub block_b : ℕ
  pub is_previous : h.previous ≡ some (block_a, block_b)
  pub a_below : block_a < h.count
  pub b_below : block_b < h.count

-- Two captures, or a block of the launch before and a capture.
pub data Picks (launch : ℕ) : BlockPick → BlockPick → Type 0 where
  captures : (x y : Option ℕ) → Picks launch (capture x) (capture y)
  reuse_a : (y : Option ℕ) → 3 ≤ launch → Picks launch previous_a (capture y)
  reuse_b : (y : Option ℕ) → 3 ≤ launch → Picks launch previous_b (capture y)

pub launch_blocks-Picks : (n : ℕ) → Picks n (launch_blocks n).0 (launch_blocks n).1
unfolding launch_blocks
launch_blocks-Picks zero = captures _ _
launch_blocks-Picks (suc zero) = captures _ _
launch_blocks-Picks (suc (suc zero)) = captures _ _
launch_blocks-Picks (suc (suc (suc zero))) = reuse_b _ (omega arith)
launch_blocks-Picks (suc (suc (suc (suc zero)))) = reuse_b _ (omega arith)
launch_blocks-Picks (suc (suc (suc (suc (suc zero))))) = reuse_a _ (omega arith)
launch_blocks-Picks (suc (suc (suc (suc (suc (suc n)))))) = reuse_a _ (omega arith)

module _ (runs : List HeapCaptureRun) (pool : Bytes) where
  pub pick_blocks-Differ :
      (h : Heap) {p q : BlockPick} (n : ℕ)
      → Picks n p q
      → (3 ≤ n → Launched h)
      → let ((a, b), after) = pick_blocks runs pool p q h in Differ after a b
  unfolding pick_blocks pick_block fresh_block
  pick_blocks-Differ h n (captures x y) l = record {
    first_block = h.count;
    second_block = h.count + 1;
    is_first = refl;
    is_second = refl;
    apart = omega arith;
    first_below = omega arith;
    second_below = omega arith;
  }
  pick_blocks-Differ h n (reuse_a y late) l =
      let before = l late in
      record {
        first_block = before.block_a;
        second_block = h.count;
        is_first = ap (Option.map (λ p. p.0)) before.is_previous;
        is_second = refl;
        apart = omega (arith, before.a_below);
        first_below = omega (arith, before.a_below);
        second_below = omega arith;
      }
  pick_blocks-Differ h n (reuse_b y late) l =
      let before = l late in
      record {
        first_block = before.block_b;
        second_block = h.count;
        is_first = ap (Option.map (λ p. p.1)) before.is_previous;
        is_second = refl;
        apart = omega (arith, before.b_below);
        first_below = omega (arith, before.b_below);
        second_below = omega arith;
      }

  pub free_blocks-Launched :
      (h : Heap) (a b : Option ℕ) → Differ h a b → Launched (free_blocks a b h)
  unfolding free_blocks both
  free_blocks-Launched h a b d = record {
    block_a = d.first_block;
    block_b = d.second_block;
    is_previous = rw (d.is_first, d.is_second) refl;
    a_below = d.first_below;
    b_below = d.second_below;
  }

  pub launches_step :
      (h : Heap) (p q : BlockPick) → (pick_blocks runs pool p q h).1.launches ≡ h.launches
  unfolding pick_blocks pick_block fresh_block
  launches_step h (capture x) (capture y) = refl
  launches_step h (capture x) previous_a = refl
  launches_step h (capture x) previous_b = refl
  launches_step h previous_a (capture y) = refl
  launches_step h previous_a previous_a = refl
  launches_step h previous_a previous_b = refl
  launches_step h previous_b (capture y) = refl
  launches_step h previous_b previous_a = refl
  launches_step h previous_b previous_b = refl

  -- The heap after `n` launches and their ends.
  unfoldable pub after_launches : ℕ → Heap
  unfolding allocate_blocks free_blocks
  after_launches zero = first_heap
  after_launches (suc n) =
      let ((a, b), after) = allocate_blocks runs pool (after_launches n) in free_blocks a b after

  pub after_launches-launches : (n : ℕ) → (after_launches n).launches ≡ n
  unfolding after_launches allocate_blocks free_blocks pick_blocks
  after_launches-launches zero = refl
  after_launches-launches (suc n) =
      let before = after_launches n in
      let picks = launch_blocks before.launches in
      launches_step (record before { launches = before.launches + 1 }) picks.0 picks.1
      ∙ omega (arith, after_launches-launches n)

  pub allocate_blocks-Differ :
      (h : Heap)
      → (3 ≤ h.launches → Launched h)
      → let ((a, b), after) = allocate_blocks runs pool h in Differ after a b
  unfolding allocate_blocks
  allocate_blocks-Differ h l =
      pick_blocks-Differ (record h { launches = h.launches + 1 }) h.launches
        (launch_blocks-Picks h.launches)
        (λ late.
          let before = l late in
          record {
            block_a = before.block_a;
            block_b = before.block_b;
            is_previous = before.is_previous;
            a_below = before.a_below;
            b_below = before.b_below;
          })

  pub after_launches-Launched : (n : ℕ) → 1 ≤ n → Launched (after_launches n)
  unfolding after_launches
  after_launches-Launched zero l = absurd (omega arith)
  after_launches-Launched (suc n) l =
      let got = allocate_blocks runs pool (after_launches n) in
      free_blocks-Launched got.1 got.0.0 got.0.1 (
        allocate_blocks-Differ (after_launches n)
          (λ late. after_launches-Launched n (omega (arith, after_launches-launches n, late))))

  -- Every launch of the audio thread gets two blocks of the heap that differ, never a null pointer, when each
  -- launch before has ended.
  pub allocate_blocks-launches :
      (n : ℕ)
      → let ((a, b), after) = allocate_blocks runs pool (after_launches n) in Differ after a b
  allocate_blocks-launches n =
      allocate_blocks-Differ (after_launches n)
        (λ late. after_launches-Launched n (omega (arith, after_launches-launches n, late)))
