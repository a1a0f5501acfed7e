-- ===== src/Tests/Wave.antt =====
-- The theorems on the menu's sound files at concrete files.
use open_carbon.Base.{
  Bytes, List, [], arith, if◌then◌else◌, leb, ltb, none, refl, some, true, false, get_or, ℕ, ◌%◌,
  ◌&&◌, ◌*◌, ◌+◌, ◌-◌, ◌/◌, ◌==◌, ◌∷◌, ◌≡◌,
}
use mathlib.Core.Bool.{false≢true}
use open_carbon.App.Wave.{
  Wave, Found, accepted, thrown, walk, load_wave, read_found, read_pcm, format_chunk,
}
use open_carbon.App.Wave.Chunks.{ChunkAt, first, next, passes, walk_ends, walk_stuck}
use open_carbon.Screen.{Floats}
use open_carbon.App.Voices.{Positions, Voice, mix}
use open_carbon.App.Voices.Reads.{Steady, with_pcm, swapped, mix-swapped}
use open_carbon.App.Wave.Dumped.{append_all, HasSamples, load_wave-append_all}
use open_carbon.Platform.Stream.Dump.{open_dump, contents}

abbrev zeros : Bytes
zeros i = 0

abbrev silent_wave : Wave
silent_wave = record { pcm = zeros; pcm_size = 0; channels = 2; rate = 48000 }

abbrev nothing_found : Found
nothing_found = record {
  wave_channels = 2;
  wave_rate = 48000;
  sample_bits = 0;
  data_off = 0;
  data_size = 0;
}

-- Two samples.
abbrev two_samples : List ℕ
two_samples = 1 ∷ 2 ∷ 3 ∷ 4 ∷ []

-- A data chunk of four bytes, which are those of the size that a chunk must not give.
abbrev data_head : Bytes
data_head i =
    get_or
      (b'R' ∷ b'I' ∷ b'F' ∷ b'F' ∷ 0 ∷ 0 ∷ 0 ∷ 0 ∷ b'W' ∷ b'A' ∷ b'V' ∷ b'E' ∷ b'd' ∷ b'a' ∷ b't'
        ∷ b'a' ∷ 4 ∷ 0 ∷ 0 ∷ 0 ∷ 0xf8 ∷ 0xff ∷ 0xff ∷ 0xff ∷ [])
      i 0

-- It is the only chunk.
data_head-first : (o : ℕ) → ChunkAt data_head o → passes data_head o ≡ true → false ≡ true
data_head-first o first p = p
data_head-first o (next o' at q) p = data_head-first o' at q

walk_ends_example : (found : Found) × (walk 0x400 data_head 12 nothing_found ≡ some found)
walk_ends_example =
    walk_ends data_head nothing_found
      (λ o reached inside e. absurd (false≢true (data_head-first o reached inside)))

-- The first chunk gives the size 2^32 - 8.
abbrev stuck_head : Bytes
stuck_head i = if i == 16 then 0xf8 else if leb 17 i && ltb i 20 then 0xff else 0

walk_stuck_example : walk 100000 stuck_head 12 nothing_found ≡ none
walk_stuck_example = walk_stuck 100000 stuck_head 12 nothing_found refl refl

-- Two calls of the dump.
abbrev calls : List (List ℕ)
calls = (1 ∷ 0xffff ∷ []) ∷ (300 ∷ 4 ∷ []) ∷ []

load_wave-append_all_example :
    (w : Wave) × (load_wave zeros
        (some (contents (append_all calls (open_dump 32000 2))))
        silent_wave
      ≡ accepted w)
    × HasSamples w 2 32000 (1 ∷ 0xffff ∷ 300 ∷ 4 ∷ [])
load_wave-append_all_example =
    load_wave-append_all zeros 32000 2 calls silent_wave (omega arith) (omega arith) (omega arith)
      (ground arith)

-- A file that ends behind the name of its data chunk.
abbrev cut_file : List ℕ
cut_file =
    b'R' ∷ b'I' ∷ b'F' ∷ b'F' ∷ 0 ∷ 0 ∷ 0 ∷ 0 ∷ b'W' ∷ b'A' ∷ b'V' ∷ b'E' ∷ b'f' ∷ b'm' ∷ b't'
    ∷ b' ' ∷ 16 ∷ 0 ∷ 0 ∷ 0 ∷ 1 ∷ 0 ∷ 2 ∷ 0 ∷ 0 ∷ 0 ∷ 0 ∷ 0 ∷ 0 ∷ 0 ∷ 0 ∷ 0 ∷ 4 ∷ 0 ∷ 16 ∷ 0 ∷ b'd'
    ∷ b'a' ∷ b't' ∷ b'a' ∷ []

load_wave-cut_file : load_wave zeros (some cut_file) silent_wave ≡ thrown
unfolding load_wave walk read_found read_pcm format_chunk
load_wave-cut_file = refl

-- Three frames in a loop, in steps of one and a half; a position is in thousandths of a frame.
abbrev positions : Positions
positions = record {
  origin = 0;
  advance = λ p step. p + step;
  back = λ p n. p - 1000 * n;
  whole = λ p. p / 1000;
  rest = λ p. p % 1000;
}

positions-Steady : Steady positions 1500 2
positions-Steady = record { forward = λ p h. omega arith; backward = λ p n h l. omega arith }

abbrev floats : Floats
floats = record {
  plus = λ a b. a + b;
  minus = λ a b. a - b;
  times = λ a b. a * b;
  negated = λ a. a;
  less = ltb;
  at_most = ltb;
  ratio = λ a b. a / b;
  to_int = λ a. a;
  from_int = λ a. a;
}

abbrev voice : Voice
voice = record {
  wave = record { pcm = λ i. i; pcm_size = 6; channels = 2; rate = 48000 };
  loop = true;
  playing = true;
  pos = 0;
  vol_l = 1;
  vol_r = 1;
  vol_c = 0;
}

-- Other bytes behind the six samples.
abbrev other_bytes : Bytes
other_bytes i = if ltb i 6 then i else 77

mix-swapped_example :
    mix floats positions (λ rate. 1500) (with_pcm other_bytes voice) ((0, 0) ∷ (0, 0) ∷ (0, 0) ∷ [])
    ≡ swapped other_bytes
        (mix floats positions (λ rate. 1500) voice ((0, 0) ∷ (0, 0) ∷ (0, 0) ∷ []))
mix-swapped_example =
    mix-swapped floats positions (λ rate. 1500) 2 other_bytes ((0, 0) ∷ (0, 0) ∷ (0, 0) ∷ []) voice
      positions-Steady (λ i below. ground arith)
      (λ on. record { long_enough = omega arith; countable = omega arith; near = omega arith })
