-- ===== src/App/Wave/Dumped.antt =====
-- What `Wave::Load` of carbon-pc/src/app/MenuAudio.cpp reads of a file that `WavDump` of
-- carbon-pc/src/platform/win32/AudioStream_wasapi.cpp has written.
use mathlib.Core.List.{append_assoc, append-nil}
use open_carbon.Base.{
  ℕ, zero, suc, ◌+◌, ◌*◌, ◌^◌, ◌<◌, ◌≡◌, refl, sym, ap, ◌∙◌, arith, List, [], ◌∷◌, ◌++◌, some,
  Bytes, get_or, length, u32, All,
}
use open_carbon.Platform.Stream.Dump.{
  WavDump, low_byte, wav_header, little_endian, open_dump, append_dump, contents,
}
use open_carbon.App.Wave.Plain.{wave_file, load_wave-wave_file}
use open_carbon.App.Wave.{Wave, accepted, load_wave}

-- A number of calls of `Append`.
abbrev pub append_all : List (List ℕ) → WavDump → WavDump
append_all [] d = d
append_all (samples ∷ rest) d = append_all rest (append_dump samples d)

abbrev pub joined : List (List ℕ) → List ℕ
joined [] = []
joined (xs ∷ rest) = xs ++ joined rest

get_or-append : (xs ys : List ℕ) (k : ℕ) → get_or (xs ++ ys) (length xs + k) 0 ≡ get_or ys k 0
get_or-append [] ys k = ap (λ n. get_or ys n 0) (omega arith)
get_or-append (x ∷ xs) ys k =
    ap (λ n. get_or (x ∷ xs ++ ys) n 0) (later (length xs) k) ∙ get_or-append xs ys k
  where
    later : (n k : ℕ) → suc n + k ≡ suc (n + k)
    later n k = omega arith

little_endian-append :
    (xs ys : List ℕ) → little_endian (xs ++ ys) ≡ little_endian xs ++ little_endian ys
little_endian-append [] ys = refl
little_endian-append (x ∷ xs) ys =
    ap (λ rest. low_byte 0 x ∷ low_byte 8 x ∷ rest) (little_endian-append xs ys)

length-little_endian : (xs : List ℕ) → length (little_endian xs) ≡ length xs * 2
length-little_endian [] = omega arith
length-little_endian (x ∷ xs) = omega (arith, length-little_endian xs)

length-append : (xs ys : List ℕ) → length (xs ++ ys) ≡ length xs + length ys
length-append [] ys = omega arith
length-append (x ∷ xs) ys = omega (arith, length-append xs ys)

-- The bytes of the `i`-th sample.
sample_bytes :
    (xs : List ℕ) (i : ℕ)
    → (get_or (little_endian xs) (i * 2) 0 ≡ low_byte 0 (get_or xs i 0))
      × (get_or (little_endian xs) (i * 2 + 1) 0 ≡ low_byte 8 (get_or xs i 0))
sample_bytes [] i = (refl, refl)
sample_bytes (x ∷ xs) zero = (refl, refl)
sample_bytes (x ∷ xs) (suc i) =
    let (low, high) = sample_bytes xs i in
    let two : suc i * 2 ≡ suc (suc (i * 2)) = omega arith in
    let three : suc i * 2 + 1 ≡ suc (suc (i * 2 + 1)) = omega arith in (rw two low, rw three high)

-- The header counts the bytes that follow it.
contents-append_all :
    (chunks : List (List ℕ)) (d : WavDump)
    → d.data_bytes ≡ length d.body
    → length d.body + length (joined chunks) * 2 < 2 ^ 31
    → contents (append_all chunks d)
      ≡ wave_file d.channels d.rate (d.body ++ little_endian (joined chunks))
unfolding append_dump
contents-append_all [] d h small =
    rw (append-nil d.body) (ap (λ n. wav_header d.channels d.rate n ++ d.body) h)
contents-append_all (xs ∷ rest) d h small =
    let bytes = length-append xs (joined rest) in
    let counted : u32 (d.data_bytes + length xs * 2) ≡ length (d.body ++ little_endian xs) =
      omega (arith, h, bytes, length-append d.body (little_endian xs), length-little_endian xs) in
    contents-append_all rest (append_dump xs d) counted
      (omega (arith, bytes, length-append d.body (little_endian xs), length-little_endian xs))
    ∙ ap (wave_file d.channels d.rate) (
        append_assoc d.body (little_endian xs) (little_endian (joined rest))
        ∙ ap (λ ys. d.body ++ ys) (sym (little_endian-append xs (joined rest))))

-- The wave holds these samples.
pub record HasSamples (w : Wave) (channels rate : ℕ) (samples : List ℕ) : Type 0 where
  pub channels_read : w.channels ≡ channels
  pub rate_read : w.rate ≡ rate
  pub size : w.pcm_size ≡ length samples
  pub stored : (i : ℕ) → i < length samples → w.pcm i ≡ get_or samples i 0

All-get : (xs : List ℕ) (i : ℕ) → All (λ x. x < 2 ^ 16) xs → get_or xs i 0 < 2 ^ 16
All-get [] i h = omega arith
All-get (x ∷ xs) zero h = h.0
All-get (x ∷ xs) (suc i) h = All-get xs i h.1

byte_at :
    (channels rate : ℕ) (body : List ℕ) (k : ℕ)
    → get_or (wave_file channels rate body) (44 + k) 0 ≡ get_or body k 0
byte_at channels rate body k = get_or-append (wav_header channels rate (length body)) body k

stored_sample :
    (channels rate : ℕ) (xs : List ℕ) (i : ℕ)
    → get_or xs i 0 < 2 ^ 16
    → get_or (wave_file channels rate (little_endian xs)) (44 + i * 2) 0
        + get_or (wave_file channels rate (little_endian xs)) (44 + i * 2 + 1) 0 * 2 ^ 8
      ≡ get_or xs i 0
stored_sample channels rate xs i h =
    let file = wave_file channels rate (little_endian xs) in
    let (low, high) = sample_bytes xs i in
    let odd : 44 + i * 2 + 1 ≡ 44 + (i * 2 + 1) = omega arith in
    let second = ap (λ k. get_or file k 0) odd in
    omega (
      arith,
      byte_at channels rate (little_endian xs) (i * 2),
      byte_at channels rate (little_endian xs) (i * 2 + 1),
      second,
      low,
      high,
    )

-- A dump of 16-bit samples loads as a sound: after any calls of `Append` on a new file, of less than
-- 2 GB together, the menu reads the channels, the rate and all the samples of all the calls.
pub load_wave-append_all :
    (past : Bytes) (rate channels : ℕ) (chunks : List (List ℕ)) (old : Wave)
    → channels < 2 ^ 16
    → rate < 2 ^ 32
    → length (joined chunks) * 2 < 2 ^ 31
    → All (λ x. x < 2 ^ 16) (joined chunks)
    → (w : Wave) × (load_wave past
          (some (contents (append_all chunks (open_dump rate channels))))
          old
        ≡ accepted w)
      × HasSamples w channels rate (joined chunks)
unfolding open_dump
load_wave-append_all past rate channels chunks old c r small bytes =
    let xs = joined chunks in
    let body = little_endian xs in
    let size = length-little_endian xs in
    let file = contents-append_all chunks (open_dump rate channels) refl (omega arith) in
    (
      _,
      ap (λ f. load_wave past (some f) old) file
          ∙ load_wave-wave_file past channels rate body old c r (omega (arith, size)),
      record {
        channels_read = refl;
        rate_read = refl;
        size = omega (arith, size);
        stored = λ i below. stored_sample channels rate xs i (All-get xs i bytes);
      },
    )
