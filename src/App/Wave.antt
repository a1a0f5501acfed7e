-- ===== src/App/Wave.antt =====
-- `Wave` and `Wave::Load` of carbon-pc/src/app/MenuAudio.cpp. A file is its bytes; what stands in
-- memory behind the buffer of its head is a parameter.
pub mod Chunks
pub mod Plain
pub mod Dumped
use open_carbon.Base.{
  ℕ, zero, suc, ◌+◌, ◌-◌, ◌*◌, ◌/◌, ◌%◌, ◌^◌, List, [], ◌∷◌, Option, none, some, Bool, true, false,
  not, ◌&&◌, ◌||◌, ◌==◌, leb, ltb, if◌then◌else◌, Bytes, get_or, length, u16, u32,
}

pub record Wave : Type 0 where
  pub pcm : Bytes
  pub pcm_size : ℕ
  pub channels : ℕ
  pub rate : ℕ

-- What the walk over the chunks has found.
pub record Found : Type 0 where
  pub wave_channels : ℕ
  pub wave_rate : ℕ
  pub sample_bits : ℕ
  pub data_off : ℕ
  pub data_size : ℕ

-- `false`, `true`, the exception of a vector that is too long, and a walk that never ends.
pub data Loading : Type 0 where
  refused : Wave → Loading
  accepted : Wave → Loading
  thrown : Loading
  hangs : Loading

abbrev pub field16 : Bytes → ℕ → ℕ
field16 h o = u16 (h o + h (o + 1) * 2 ^ 8)

abbrev pub field32 : Bytes → ℕ → ℕ
field32 h o = u32 (h o + h (o + 1) * 2 ^ 8 + h (o + 2) * 2 ^ 16 + h (o + 3) * 2 ^ 24)

-- `memcmp` with a name of four characters
abbrev pub is_tag : Bytes → ℕ → ℕ → ℕ → ℕ → ℕ → Bool
is_tag h o a b c d = h o == a && h (o + 1) == b && h (o + 2) == c && h (o + 3) == d

-- The first 0x400 bytes of the file.
abbrev pub head_of : Bytes → List ℕ → Bytes
head_of past file i = if ltb i 0x400 then get_or file i 0 else past i

unfoldable pub format_chunk : Bytes → ℕ → Found → Found
format_chunk h off w =
    if is_tag h off b'f' b'm' b't' b' '
    then record w {
      wave_channels = field16 h (off + 10);
      wave_rate = field32 h (off + 12);
      sample_bits = field16 h (off + 22);
    }
    else w

-- The loop over the chunks; `none` says that the fuel ran out. The step to the next chunk is a `uint32_t`.
unfoldable pub walk : ℕ → Bytes → ℕ → Found → Option Found
unfolding format_chunk
walk zero h off w = none
walk (suc fuel) h off w =
    let size = field32 h (off + 4) in
    let rest = walk fuel h ((off + u32 (8 + size)) % 2 ^ 64) (format_chunk h off w) in
    if leb (off + 8) 0x400
    then (if is_tag h off b'd' b'a' b't' b'a'
        then some (record w { data_off = off + 8; data_size = size })
        else rest)
    else some w

-- The samples after the walk. A vector holds at most 2 ^ 62 of them.
unfoldable pub read_pcm : List ℕ → Wave → Found → Loading
read_pcm file w found =
    let size = length file in
    let named = record w { channels = found.wave_channels; rate = found.wave_rate } in
    let bytes =
      if ltb size (found.data_off + found.data_size)
      then (size + (2 ^ 64 - found.data_off)) % 2 ^ 64
      else found.data_size in
    if not (found.sample_bits == 16) || found.data_off == 0
    then refused named
    else if ltb (2 ^ 62) (bytes / 2)
    then thrown
    else accepted (record named {
      pcm = λ i.
          get_or file (found.data_off + i * 2) 0
          + get_or file (found.data_off + i * 2 + 1) 0 * 2 ^ 8;
      pcm_size = bytes / 2;
    })

unfoldable pub read_found : List ℕ → Wave → Option Found → Loading
read_found file w none = hangs
read_found file w (some found) = read_pcm file w found

-- A walk that has not ended after 0x400 rounds does not end.
unfoldable pub load_wave : Bytes → Option (List ℕ) → Wave → Loading
load_wave past none w = refused w
load_wave past (some file) w =
    let h = head_of past file in
    let begun : Found = record {
      wave_channels = w.channels;
      wave_rate = w.rate;
      sample_bits = 0;
      data_off = 0;
      data_size = 0;
    } in
    if is_tag h 0 b'R' b'I' b'F' b'F' && is_tag h 8 b'W' b'A' b'V' b'E'
    then read_found file w (walk 0x400 h 12 begun)
    else refused w
