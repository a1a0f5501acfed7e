-- ===== src/System/SaveFile/Layout.antt =====
-- The blocks of a save state do not overlap, so each one's bytes stand in the file where it says.
use open_carbon.Base.{
  ℕ, ◌+◌, ◌≤◌, ◌<◌, List, [], ◌∷◌, Bool, true, leb, ◌&&◌, ◌≡◌, refl, Bytes, arith,
}
use open_carbon.State.{Machine}
use open_carbon.System.StateBlocks.{Block, copy_block, write_blocks}

-- The blocks stand in order from `lo` on, and the last one ends at `end` at most.
unfoldable pub ordered : ℕ → ℕ → List Block → Bool
ordered lo end [] = leb lo end
ordered lo end (b ∷ rest) = leb lo b.offset && ordered (b.offset + b.size) end rest

-- A block of the list.
pub data Part (b : Block) : List Block → Type 0 where
  first : {rest : List Block} → Part b (b ∷ rest)
  later : {c : Block} {rest : List Block} → Part b rest → Part b (c ∷ rest)

module _ (m : Machine) (end : ℕ) where
  pub write_blocks-before :
      (bs : List Block) (f : Bytes) (lo j : ℕ)
      → ordered lo end bs ≡ true
      → j < lo
      → write_blocks bs m f j ≡ f j
  unfolding ordered copy_block write_blocks
  write_blocks-before [] f lo j o l = refl
  write_blocks-before (b ∷ rest) f lo j o l =
      ground (arith, write_blocks-before rest (copy_block b m f) (b.offset + b.size) j)

  pub write_blocks-Part :
      (bs : List Block) (f : Bytes) (lo : ℕ) {b : Block} (k : ℕ)
      → ordered lo end bs ≡ true
      → Part b bs
      → k < b.size
      → write_blocks bs m f (b.offset + k) ≡ b.view m k
  unfolding ordered copy_block write_blocks
  write_blocks-Part [] f lo k o i l = elim i [ ]
  write_blocks-Part (b ∷ rest) f lo k o first l =
      ground (arith, write_blocks-before rest (copy_block b m f) (b.offset + b.size) (b.offset + k))
  write_blocks-Part (c ∷ rest) f lo {b} k o (later i) l =
      ground (arith, write_blocks-Part rest (copy_block c m f) (c.offset + c.size) {b = b} k)

pub ordered-le : (end : ℕ) (bs : List Block) (lo : ℕ) → ordered lo end bs ≡ true → lo ≤ end
unfolding ordered
ordered-le end [] lo o = ground arith
ordered-le end (b ∷ rest) lo o = ground (arith, ordered-le end rest (b.offset + b.size))

pub ordered-Part :
    (end : ℕ) (bs : List Block) (lo : ℕ) {b : Block}
    → ordered lo end bs ≡ true
    → Part b bs
    → b.offset + b.size ≤ end
unfolding ordered
ordered-Part end [] lo o i = elim i [ ]
ordered-Part end (b ∷ rest) lo o first = ground (arith, ordered-le end rest (b.offset + b.size))
ordered-Part end (c ∷ rest) lo {b} o (later i) =
    ground (arith, ordered-Part end rest (c.offset + c.size) {b = b})
