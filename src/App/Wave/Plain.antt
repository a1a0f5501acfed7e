-- ===== src/App/Wave/Plain.antt =====
-- A plain file as `Wave::Load` of carbon-pc/src/app/MenuAudio.cpp reads it.
use open_carbon.Base.{
  ℕ, ◌+◌, ◌*◌, ◌/◌, ◌^◌, ◌<◌, List, ◌++◌, some, false, ltb, Bytes, get_or, length, u16, u32, ◌≡◌,
  refl, arith,
}
use open_carbon.Platform.Stream.Dump.{low_byte, wav_header}
use open_carbon.App.Wave.{
  Wave, Found, accepted, field16, field32, head_of, format_chunk, walk, read_pcm, read_found,
  load_wave,
}

-- The header of 44 bytes and the samples' bytes.
abbrev pub wave_file : ℕ → ℕ → List ℕ → List ℕ
wave_file channels rate samples = wav_header channels rate (length samples) ++ samples

pub walk-wave_file :
    (past : Bytes) (channels rate : ℕ) (samples : List ℕ) (w : Found)
    → walk 0x400 (head_of past (wave_file channels rate samples)) 12 w
      ≡ some (record {
        wave_channels = field16 (head_of past (wave_file channels rate samples)) 22;
        wave_rate = field32 (head_of past (wave_file channels rate samples)) 24;
        sample_bits = 16;
        data_off = 44;
        data_size = field32 (head_of past (wave_file channels rate samples)) 40;
      })
unfolding walk format_chunk
walk-wave_file past channels rate samples w = refl

pub low_bytes :
    (v : ℕ)
    → v < 2 ^ 32
    → u32 (low_byte 0 v + low_byte 8 v * 2 ^ 8 + low_byte 16 v * 2 ^ 16 + low_byte 24 v * 2 ^ 24)
      ≡ v
low_bytes v l = omega arith

pub low_two : (v : ℕ) → v < 2 ^ 16 → u16 (low_byte 0 v + low_byte 8 v * 2 ^ 8) ≡ v
low_two v l = omega arith

pub read_pcm-whole :
    (file : List ℕ) (w : Wave) (channels rate size : ℕ)
    → length file ≡ 44 + size
    → size < 2 ^ 31
    → read_pcm file w (record {
      wave_channels = channels;
      wave_rate = rate;
      sample_bits = 16;
      data_off = 44;
      data_size = size;
    })
      ≡ accepted (record {
        pcm = λ i. get_or file (44 + i * 2) 0 + get_or file (44 + i * 2 + 1) 0 * 2 ^ 8;
        pcm_size = size / 2;
        channels = channels;
        rate = rate;
      })
unfolding read_pcm
read_pcm-whole file w channels rate size e l =
    let inside : ltb (length file) (44 + size) ≡ false = rw (e) (ground arith) in
    let short : ltb (2 ^ 62) (size / 2) ≡ false = ground arith in simp (inside, short) refl

-- A plain file of 16-bit samples loads: its channels and its rate, and the samples behind the header of 44 bytes. The file has less
-- than 2 GB.
pub load_wave-wave_file :
    (past : Bytes) (channels rate : ℕ) (samples : List ℕ) (w : Wave)
    → channels < 2 ^ 16
    → rate < 2 ^ 32
    → length samples < 2 ^ 31
    → load_wave past (some (wave_file channels rate samples)) w
      ≡ accepted (record {
        pcm = λ i.
            get_or (wave_file channels rate samples) (44 + i * 2) 0
            + get_or (wave_file channels rate samples) (44 + i * 2 + 1) 0 * 2 ^ 8;
        pcm_size = length samples / 2;
        channels = channels;
        rate = rate;
      })
unfolding load_wave read_found
load_wave-wave_file past channels rate samples w c r l =
    let n : field32 (head_of past (wave_file channels rate samples)) 40 ≡ length samples =
      low_bytes (length samples) (omega arith) in
    let ch : field16 (head_of past (wave_file channels rate samples)) 22 ≡ channels =
      low_two channels c in
    let ra : field32 (head_of past (wave_file channels rate samples)) 24 ≡ rate =
      low_bytes rate r in
    rw (walk-wave_file past channels rate samples _, n, ch, ra)
      (read_pcm-whole (wave_file channels rate samples) w channels rate (length samples)
        (omega arith) l)
