-- ===== src/App/Wave/Chunks.antt =====
-- What `Wave::Load` of carbon-pc/src/app/MenuAudio.cpp reads of a file.
use open_carbon.Base.{
  ℕ, zero, suc, ◌+◌, ◌-◌, ◌*◌, ◌/◌, ◌%◌, ◌^◌, ◌≤◌, ◌<◌, List, Option, none, some, Bool, true, false,
  not, ◌&&◌, ◌||◌, ◌==◌, leb, ltb, if◌then◌else◌, Bytes, get_or, length, u32, ◌≡◌, refl, arith,
  Bool-cases, inl, inr, ◌≢◌, sym, ap, ◌∙◌, leb→le,
}
use mathlib.Core.Bool.{false≢true}
use open_carbon.App.Wave.{
  Wave, Found, Loading, refused, accepted, thrown, hangs, field32, is_tag, head_of, format_chunk,
  walk, read_pcm, read_found, load_wave,
}

abbrev pub has_ended : Option Found → Bool
has_ended none = false
has_ended (some found) = true

-- How far a chunk moves the walk.
abbrev pub chunk_step : Bytes → ℕ → ℕ
chunk_step h off = u32 (8 + field32 h (off + 4))

-- A chunk of the head that is not the data.
abbrev pub passes : Bytes → ℕ → Bool
passes h off = leb (off + 8) 0x400 && not (is_tag h off b'd' b'a' b't' b'a')

pub walk-passes :
    (fuel : ℕ) (h : Bytes) (off : ℕ) (w : Found)
    → passes h off ≡ true
    → walk (suc fuel) h off w
      ≡ walk fuel h ((off + chunk_step h off) % 2 ^ 64) (format_chunk h off w)
unfolding walk
walk-passes fuel h off w p = ground arith

pub walk-stops :
    (fuel : ℕ) (h : Bytes) (off : ℕ) (w : Found)
    → passes h off ≡ false
    → has_ended (walk (suc fuel) h off w) ≡ true
unfolding walk
walk-stops fuel h off w p = ground arith

-- The places of the chunks: 12 is one, and behind a chunk that is not the data the next one stands
-- eight bytes and its size further on, in a `uint32_t` and a `size_t`.
pub data ChunkAt (h : Bytes) : ℕ → Type 0 where
  first : ChunkAt h 12
  next :
      (o : ℕ)
      → ChunkAt h o
      → passes h o ≡ true
      → ChunkAt h ((o + (8 + field32 h (o + 4)) % 2 ^ 32) % 2 ^ 64)

-- Rounds that move the walk reach the end of the head.
pub walk-has_ended :
    (fuel : ℕ) (h : Bytes) (off : ℕ) (w : Found)
    → ChunkAt h off
    → ((o : ℕ) → ChunkAt h o → passes h o ≡ true → field32 h (o + 4) ≢ 2 ^ 32 - 8)
    → 0x3f8 < off + fuel
    → has_ended (walk (suc fuel) h off w) ≡ true
walk-has_ended zero h off w at sizes l = walk-stops zero h off w (ground arith)
walk-has_ended (suc fuel) h off w at sizes l = elim (Bool-cases (passes h off)) [
  | inr s ↦ walk-stops (suc fuel) h off w s
  | inl p ↦ rw (walk-passes (suc fuel) h off w p) (
      walk-has_ended fuel h ((off + chunk_step h off) % 2 ^ 64) (format_chunk h off w)
        (next off at p) sizes (ground (arith, moves (field32 h (off + 4)) (sizes off at p))))
]
  where
    moves : (size : ℕ) → size ≢ 2 ^ 32 - 8 → size < 2 ^ 32 → 0 < u32 (8 + size)
    moves size ne l = omega arith

-- The walk over the chunks ends within 0x400 rounds if none of the chunks that stand in the head, in
-- front of the data, gives the size 2^32 - 8; other bytes of the head may be anything.
pub walk_ends :
    (h : Bytes) (w : Found)
    → ((o : ℕ) → ChunkAt h o → passes h o ≡ true → field32 h (o + 4) ≢ 2 ^ 32 - 8)
    → (found : Found) × (walk 0x400 h 12 w ≡ some found)
walk_ends h w sizes =
    result (walk 0x400 h 12 w) (walk-has_ended 0x3ff h 12 w first sizes (omega arith))
  where
    result : (o : Option Found) → has_ended o ≡ true → (found : Found) × (o ≡ some found)
    result none e = absurd (false≢true e)
    result (some found) e = (found, refl)

-- A chunk of the head that gives the size 2^32 - 8 and is not the data keeps the walk where it is, for ever.
pub walk_stuck :
    (fuel : ℕ) (h : Bytes) (off : ℕ) (w : Found)
    → passes h off ≡ true
    → field32 h (off + 4) ≡ 2 ^ 32 - 8
    → walk fuel h off w ≡ none
unfolding walk
walk_stuck zero h off w p e = refl
walk_stuck (suc fuel) h off w p e =
    let still : (off + chunk_step h off) % 2 ^ 64 ≡ off = ground (arith, e) in
    rw (walk-passes fuel h off w p, still) (walk_stuck fuel h off (format_chunk h off w) p e)

pub walk-step_none :
    (h : Bytes) (off : ℕ) (w : Found)
    → passes h off ≡ true
    → ((k : ℕ) → walk k h ((off + chunk_step h off) % 2 ^ 64) (format_chunk h off w) ≡ none)
    → (k : ℕ) → walk k h off w ≡ none
unfolding walk
walk-step_none h off w p further zero = refl
walk-step_none h off w p further (suc k) = walk-passes k h off w p ∙ further k

-- A walk that 0x400 rounds do not end is stuck at such a chunk.
pub walk-none :
    (fuel : ℕ) (h : Bytes) (off : ℕ) (w : Found)
    → 0x3f8 < off + fuel
    → walk (suc fuel) h off w ≡ none
    → (k : ℕ) → walk k h off w ≡ none
walk-none zero h off w l e k =
    absurd (false≢true (sym (ap has_ended e) ∙ walk-stops zero h off w (ground arith)))
walk-none (suc fuel) h off w l e k = elim (Bool-cases (passes h off)) [
  | inr s ↦ absurd (false≢true (sym (ap has_ended e) ∙ walk-stops (suc fuel) h off w s))
  | inl p ↦ elim (Bool-cases (field32 h (off + 4) == 2 ^ 32 - 8)) [
    | inl t ↦ walk_stuck k h off w p (ground (arith, t))
    | inr t ↦
        walk-step_none h off w p
          (walk-none fuel h ((off + chunk_step h off) % 2 ^ 64) (format_chunk h off w)
            (ground (arith, t)) (sym (walk-passes (suc fuel) h off w p) ∙ e))
          k
  ]
]

-- The samples stand in the file one after the other.
pub record FromFile (file : List ℕ) (w : Wave) : Type 0 where
  pub data_start : ℕ
  pub inside : data_start + w.pcm_size * 2 ≤ length file
  pub sample :
      (i : ℕ)
      → w.pcm i
        ≡ get_or file (data_start + i * 2) 0 + get_or file (data_start + i * 2 + 1) 0 * 2 ^ 8

abbrev pub Sound : List ℕ → Loading → Type 0
Sound file (refused w) = Unit {0}
Sound file (accepted w) = FromFile file w
Sound file thrown = Unit {0}
Sound file hangs = Unit {0}

pub pcm-inside_at :
    (t : Bool) (size off data_size : ℕ)
    → ltb size (off + data_size) ≡ t
    → size < 2 ^ 31
    → off ≤ 0x400
    → ltb (2 ^ 62) ((if t then (size + (2 ^ 64 - off)) % 2 ^ 64 else data_size) / 2) ≡ false
    → off + (if t then (size + (2 ^ 64 - off)) % 2 ^ 64 else data_size) / 2 * 2 ≤ size
pcm-inside_at true size off data_size t l d e = ground arith
pcm-inside_at false size off data_size t l d e = ground arith

pub read_pcm-Sound :
    (file : List ℕ) (w : Wave) (found : Found)
    → length file < 2 ^ 31
    → found.data_off ≤ 0x400
    → Sound file (read_pcm file w found)
unfolding read_pcm
read_pcm-Sound file w found l d =
    let size = length file in
    let bytes =
      if ltb size (found.data_off + found.data_size)
      then (size + (2 ^ 64 - found.data_off)) % 2 ^ 64
      else found.data_size in
    elim (Bool-cases (not (found.sample_bits == 16) || found.data_off == 0)) [
      | inl t ↦ simp (t) tt
      | inr t ↦ elim (Bool-cases (ltb (2 ^ 62) (bytes / 2))) [
        | inl u ↦ simp (t, u) tt
        | inr u ↦
            simp (t, u)
              (record {
                data_start = found.data_off;
                inside =
                    pcm-inside_at (ltb size (found.data_off + found.data_size)) size found.data_off
                      found.data_size refl l d u;
                sample = λ i. refl;
              })
      ]
    ]

abbrev pub starts_early : Option Found → Bool
starts_early none = true
starts_early (some found) = leb found.data_off 0x400

pub format_chunk-data_off :
    (h : Bytes) (off : ℕ) (w : Found) → w.data_off ≤ 0x400 → (format_chunk h off w).data_off ≤ 0x400
unfolding format_chunk
format_chunk-data_off h off w l = ground arith

pub walk-starts_early :
    (fuel : ℕ) (h : Bytes) (off : ℕ) (w : Found)
    → w.data_off ≤ 0x400
    → starts_early (walk fuel h off w) ≡ true
unfolding walk
walk-starts_early zero h off w l = refl
walk-starts_early (suc fuel) h off w l =
    let next = (off + u32 (8 + field32 h (off + 4))) % 2 ^ 64 in
    elim (Bool-cases (leb (off + 8) 0x400)) [
      | inr past ↦ rw (past) (ground arith)
      | inl inside ↦ elim (Bool-cases (is_tag h off b'd' b'a' b't' b'a')) [
        | inl e ↦ rw (inside, e) inside
        | inr e ↦
            rw (inside, e)
              (walk-starts_early fuel h next (format_chunk h off w)
                (format_chunk-data_off h off w l))
      ]
    ]

pub read_found-Sound :
    (file : List ℕ) (w : Wave) (o : Option Found)
    → length file < 2 ^ 31
    → starts_early o ≡ true
    → Sound file (read_found file w o)
unfolding read_found
read_found-Sound file w none l e = tt
read_found-Sound file w (some found) l e =
    read_pcm-Sound file w found l (leb→le found.data_off 0x400 e)

pub if-Sound :
    (file : List ℕ) (t : Bool) (x y : Loading)
    → Sound file x
    → Sound file y
    → Sound file (if t then x else y)
if-Sound file true x y h k = h
if-Sound file false x y h k = k

-- What is loaded of a file of less than 2 GB are samples that stand in the file, whatever its chunks say.
pub load_wave-Sound :
    (past : Bytes) (file : List ℕ) (w : Wave)
    → length file < 2 ^ 31
    → Sound file (load_wave past (some file) w)
unfolding load_wave
load_wave-Sound past file w l =
    let h = head_of past file in
    if-Sound file (is_tag h 0 b'R' b'I' b'F' b'F' && is_tag h 8 b'W' b'A' b'V' b'E') _ (refused w)
      (read_found-Sound file w (walk 0x400 h 12 _) l (walk-starts_early 0x400 h 12 _ (omega arith)))
      tt
