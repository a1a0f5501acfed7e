-- ===== src/Platform/Stream/Dump.antt =====
-- `WavDump` of carbon-pc/src/platform/win32/AudioStream_wasapi.cpp. The file is its header, which is
-- written again with every call, and what follows it; a sample is an `int16_t`'s bit pattern.
use open_carbon.Base.{ℕ, ◌+◌, ◌*◌, ◌/◌, ◌%◌, ◌^◌, List, [], ◌∷◌, ◌++◌, length, u32}

-- A byte of a number.
abbrev pub low_byte : ℕ → ℕ → ℕ
low_byte k v = v / 2 ^ k % 2 ^ 8

pub record WavDump : Type 0 where
  pub rate : ℕ
  pub channels : ℕ
  pub data_bytes : ℕ
  pub body : List ℕ

-- `WriteHeader`: 44 bytes.
abbrev pub wav_header : ℕ → ℕ → ℕ → List ℕ
wav_header channels rate size =
    b'R'
    ∷ b'I'
    ∷ b'F'
    ∷ b'F'
    ∷ low_byte 0 (36 + size)
    ∷ low_byte 8 (36 + size)
    ∷ low_byte 16 (36 + size)
    ∷ low_byte 24 (36 + size)
    ∷ b'W'
    ∷ b'A'
    ∷ b'V'
    ∷ b'E'
    ∷ b'f'
    ∷ b'm'
    ∷ b't'
    ∷ b' '
    ∷ 16
    ∷ 0
    ∷ 0
    ∷ 0
    ∷ 1
    ∷ 0
    ∷ low_byte 0 channels
    ∷ low_byte 8 channels
    ∷ low_byte 0 rate
    ∷ low_byte 8 rate
    ∷ low_byte 16 rate
    ∷ low_byte 24 rate
    ∷ low_byte 0 (rate * channels * 2)
    ∷ low_byte 8 (rate * channels * 2)
    ∷ low_byte 16 (rate * channels * 2)
    ∷ low_byte 24 (rate * channels * 2)
    ∷ low_byte 0 (channels * 2)
    ∷ low_byte 8 (channels * 2)
    ∷ 16
    ∷ 0
    ∷ b'd'
    ∷ b'a'
    ∷ b't'
    ∷ b'a'
    ∷ low_byte 0 size
    ∷ low_byte 8 size
    ∷ low_byte 16 size
    ∷ low_byte 24 size
    ∷ []

abbrev pub little_endian : List ℕ → List ℕ
little_endian [] = []
little_endian (x ∷ xs) = low_byte 0 x ∷ low_byte 8 x ∷ little_endian xs

-- `Open` of a file that can be written.
unfoldable pub open_dump : ℕ → ℕ → WavDump
open_dump rate channels = record { rate = rate; channels = channels; data_bytes = 0; body = [] }

-- `Append` of whole frames.
unfoldable pub append_dump : List ℕ → WavDump → WavDump
append_dump samples d = record d {
  data_bytes = u32 (d.data_bytes + length samples * 2);
  body = d.body ++ little_endian samples;
}

-- The bytes of the file.
abbrev pub contents : WavDump → List ℕ
contents d = wav_header d.channels d.rate d.data_bytes ++ d.body
