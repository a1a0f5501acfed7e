-- ===== src/Memory/VideoIo.antt =====
-- `VideoIoRead` and the plain registers of `VideoIoWrite`, of carbon-pc/src/gb/Video.cpp.
use open_carbon.Base.{
  ℕ, ◌+◌, ◌*◌, ◌/◌, ◌%◌, ◌^◌, List, [], ◌∷◌, ltb, ◌==◌, if◌then◌else◌, update, get_or, bit_and,
  bit_or, bit_xor, u8, bit, bits, Bytes,
}
use open_carbon.State.{Machine, Video}

unfoldable pub video_io_read : Machine → ℕ → ℕ
video_io_read m addr =
    let v = m.video in
    if addr == 0xff40
    then v.lcdc
    else if addr == 0xff41
    then v.stat
    else if addr == 0xff42
    then v.scy
    else if addr == 0xff43
    then v.scx
    else if addr == 0xff44
    then v.ly
    else if addr == 0xff45
    then v.lyc
    else if addr == 0xff47
    then v.bgp
    else if addr == 0xff48
    then v.obp0
    else if addr == 0xff49
    then v.obp1
    else if addr == 0xff4a
    then v.wy
    else if addr == 0xff4b
    then v.wx
    else if addr == 0xff4d
    then m.key1
    else if addr == 0xff4f
    then v.vbk
    else if addr == 0xff51
    then u8 (v.hdma_src / 2 ^ 8)
    else if addr == 0xff52
    then u8 v.hdma_src
    else if addr == 0xff53
    then u8 (v.hdma_dst / 2 ^ 8)
    else if addr == 0xff54
    then u8 v.hdma_dst
    else if addr == 0xff55
    then u8 (bit_xor (v.hdma_length % 2 ^ 7 + v.hdma_active * 2 ^ 7) 0x80)
    else if addr == 0xff68
    then v.bcps
    else if addr == 0xff69
    then v.bg_palette (v.bcps % 2 ^ 6)
    else if addr == 0xff6a
    then v.ocps
    else if addr == 0xff6b
    then v.obj_palette (v.ocps % 2 ^ 6)
    else 0

-- `kDmgGreens`, row by row.
abbrev pub dmg_greens : List ℕ
dmg_greens = 0xe0 ∷ 0xf8 ∷ 0xd0 ∷ 0x88 ∷ 0xc0 ∷ 0x70 ∷ 0x34 ∷ 0x68 ∷ 0x56 ∷ 0x08 ∷ 0x18 ∷ 0x20 ∷ []

-- FF47: the four colours of BGP through the green palette table.
unfoldable pub expand_bgp : Bytes → ℕ → Bytes
expand_bgp rgb value i =
    if ltb i 12 then get_or dmg_greens (bits value (i / 3 * 2) 2 * 3 + i % 3) 0 else rgb i

-- FF69 and FF6B: bit 7 of the index register makes it step within its low six bits.
unfoldable pub next_index : ℕ → ℕ
next_index ps = if bit ps 7 == 1 then (ps + 1) % 2 ^ 6 + bit (ps + 1) 7 * 2 ^ 7 else ps

-- The registers that only `io` holds.
unfoldable pub video_register_write : Video → ℕ → ℕ → Video
unfolding next_index
video_register_write v addr value =
    if addr == 0xff40
    then record v { lcdc = value }
    else if addr == 0xff41
    then record v { stat = bit_or (bit_and v.stat 0x87) (bit_and value 0xf8) }
    else if addr == 0xff42
    then record v { scy = value }
    else if addr == 0xff43
    then record v { scx = value }
    else if addr == 0xff44
    then record v { window_line = 0; ly = 0 }
    else if addr == 0xff45
    then record v { lyc = value }
    else if addr == 0xff48
    then record v { obp0 = value }
    else if addr == 0xff49
    then record v { obp1 = value }
    else if addr == 0xff4a
    then record v { wy = value }
    else if addr == 0xff4b
    then record v { wx = value }
    else if addr == 0xff4f
    then record v { vbk = value % 2 }
    else if addr == 0xff51
    then record v { hdma_src = value * 2 ^ 8 + v.hdma_src % 2 ^ 8 }
    else if addr == 0xff52
    then record v { hdma_src = v.hdma_src / 2 ^ 8 * 2 ^ 8 + value / 2 ^ 4 * 2 ^ 4 }
    else if addr == 0xff53
    then record v { hdma_dst = value % 2 ^ 5 * 2 ^ 8 + v.hdma_dst % 2 ^ 8 + 0x8000 }
    else if addr == 0xff54
    then record v { hdma_dst = v.hdma_dst / 2 ^ 8 * 2 ^ 8 + value / 2 ^ 4 * 2 ^ 4 }
    else if addr == 0xff68
    then record v { bcps = value }
    else if addr == 0xff69
    then record v {
      bg_palette = update v.bg_palette (v.bcps % 2 ^ 6) value;
      bcps = next_index v.bcps;
    }
    else if addr == 0xff6a
    then record v { ocps = value }
    else if addr == 0xff6b
    then record v {
      obj_palette = update v.obj_palette (v.ocps % 2 ^ 6) value;
      ocps = next_index v.ocps;
    }
    else v
