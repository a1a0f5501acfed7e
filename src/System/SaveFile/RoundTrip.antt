-- ===== src/System/SaveFile/RoundTrip.antt =====
-- `SaveState` and `LoadState` of carbon-pc/src/gb/System.cpp in turn.
use open_carbon.Base.{ℕ, ◌+◌, ◌<◌, List, some, true, ◌≡◌, arith, same_self}
use open_carbon.State.{Machine}
use open_carbon.System.SaveFile.{
  Disk, state_bytes, overwrite, state_path, write_state, read_state, load_file,
}
use open_carbon.System.StateBlocks.{
  StateFile, read_block, read_blocks, registers_block, video_block, interrupts_block, wram_block,
  vram_block, hram_block, tile_map_block, tile_cache_block, oam_mirror_block, oam_block,
  timer_block, mbc1_block, mbc5_block, filled_to,
}
use open_carbon.System.SaveFile.Layout.{first, later}
use open_carbon.System.SaveFile.Holds.{
  Holds, Savable, filled_to-loaded, four_bytes, loaded, low-high, overwrite-Holds, restored,
  restored_ints, restored_regs, restored_screen, restored_timer, restored_video,
}

module _ (file : StateFile) (saved m : Machine) (h : Holds saved file) where
  pub regs-load : Savable saved → (load_file (some file) m).regs ≡ restored_regs saved.regs m.regs
  unfolding load_file read_block read_blocks Holds restored_regs
  regs-load r =
      let from_file : (k : ℕ)
          → k < 0x0c
          → loaded registers_block file (registers_block.view m) k ≡ registers_block.view saved k =
        λ k l. h registers_block k first l (registers_block.view m) in
      λ i. record (m.regs) {
        f = from_file 0 (ground arith) i;
        a = from_file 1 (ground arith) i;
        c = from_file 2 (ground arith) i;
        b = from_file 3 (ground arith) i;
        e = from_file 4 (ground arith) i;
        d = from_file 5 (ground arith) i;
        l = from_file 6 (ground arith) i;
        h = from_file 7 (ground arith) i;
        sp =
            low-high _ _ saved.regs.sp (from_file 8 (ground arith)) (from_file 9 (ground arith))
              r.sp_range i;
        pc =
            low-high _ _ saved.regs.pc (from_file 10 (ground arith)) (from_file 11 (ground arith))
              r.pc_range i;
      }

  pub video-load :
      Savable saved → (load_file (some file) m).video ≡ restored_video saved.video m.video
  unfolding load_file read_block read_blocks Holds restored_video
  video-load r =
      let from_file : (k : ℕ)
          → k < 0x98
          → loaded video_block file (video_block.view m) k ≡ video_block.view saved k =
        λ k l. h video_block k (later first) l (video_block.view m) in
      λ i. record (m.video) {
        ly = from_file 0 (ground arith) i;
        lyc = from_file 1 (ground arith) i;
        lcdc = from_file 3 (ground arith) i;
        scy = from_file 4 (ground arith) i;
        scx = from_file 5 (ground arith) i;
        wy = from_file 6 (ground arith) i;
        wx = from_file 7 (ground arith) i;
        bgp = from_file 8 (ground arith) i;
        obp0 = from_file 9 (ground arith) i;
        obp1 = from_file 10 (ground arith) i;
        window_line = from_file 11 (ground arith) i;
        stat = from_file 12 (ground arith) i;
        bcps = from_file 13 (ground arith) i;
        ocps = from_file 14 (ground arith) i;
        vbk = from_file 15 (ground arith) i;
        hdma_active = from_file 16 (ground arith) i;
        hdma_src =
            low-high _ _ saved.video.hdma_src (from_file 18 (ground arith))
              (from_file 19 (ground arith)) r.hdma_src_range i;
        hdma_dst =
            low-high _ _ saved.video.hdma_dst (from_file 20 (ground arith))
              (from_file 21 (ground arith)) r.hdma_dst_range i;
        hdma_length =
            low-high _ _ saved.video.hdma_length (from_file 22 (ground arith))
              (from_file 23 (ground arith)) r.hdma_length_range i;
        bg_palette =
            filled_to-loaded 0x40 (λ k. loaded video_block file (video_block.view m) (k + 0x18))
              saved.video.bg_palette m.video.bg_palette
              (λ k l. ground (arith, from_file (k + 0x18))) i;
        obj_palette =
            filled_to-loaded 0x40 (λ k. loaded video_block file (video_block.view m) (k + 0x58))
              saved.video.obj_palette m.video.obj_palette
              (λ k l. ground (arith, from_file (k + 0x58))) i;
      }

  pub ints-load : (load_file (some file) m).ints ≡ restored_ints saved.ints m.ints
  unfolding load_file read_block read_blocks Holds restored_ints
  ints-load =
      let from_file : (k : ℕ)
          → k < 2
          → loaded interrupts_block file (interrupts_block.view m) k
            ≡ interrupts_block.view saved k =
        λ k l. h interrupts_block k (later (later first)) l (interrupts_block.view m) in
      λ i. record (m.ints) {
        int_flags = from_file 0 (ground arith) i;
        int_enable = from_file 1 (ground arith) i;
      }

  pub wram-load : (load_file (some file) m).wram ≡ filled_to 0x8000 saved.wram m.wram
  unfolding load_file read_block read_blocks Holds
  wram-load =
      filled_to-loaded 0x8000 _ saved.wram m.wram
        (λ k l. h wram_block k (later (later (later first))) l m.wram)

  pub screen-load : (load_file (some file) m).screen ≡ restored_screen saved.screen m.screen
  unfolding load_file read_block read_blocks Holds restored_screen
  screen-load = λ i. record (m.screen) {
    vram =
        filled_to-loaded 0x4000 _ saved.screen.vram m.screen.vram
          (λ k l. h vram_block k (later (later (later (later first)))) l m.screen.vram) i;
    hram =
        filled_to-loaded 0x7f _ saved.screen.hram m.screen.hram
          (λ k l. h hram_block k (later (later (later (later (later first))))) l m.screen.hram) i;
    dmg_tile_map =
        filled_to-loaded 0x8000 _ saved.screen.dmg_tile_map m.screen.dmg_tile_map
          (λ k l.
            h tile_map_block k (later (later (later (later (later (later first)))))) l
              m.screen.dmg_tile_map)
          i;
    dmg_tile_cache =
        filled_to-loaded 0x6000 _ saved.screen.dmg_tile_cache m.screen.dmg_tile_cache
          (λ k l.
            h tile_cache_block k (later (later (later (later (later (later (later first))))))) l
              m.screen.dmg_tile_cache)
          i;
    oam_mirror =
        filled_to-loaded 0xa0 _ saved.screen.oam_mirror m.screen.oam_mirror
          (λ k l.
            h oam_mirror_block k
              (later (later (later (later (later (later (later (later first)))))))) l
              m.screen.oam_mirror)
          i;
    oam =
        filled_to-loaded 0xa0 _ saved.screen.oam m.screen.oam
          (λ k l.
            h oam_block k
              (later (later (later (later (later (later (later (later (later first))))))))) l
              m.screen.oam)
          i;
  }

  pub timer-load : (load_file (some file) m).timer ≡ restored_timer saved.timer m.timer
  unfolding load_file read_block read_blocks Holds restored_timer
  timer-load =
      let from_file : (k : ℕ)
          → k < 4
          → loaded timer_block file (timer_block.view m) k ≡ timer_block.view saved k =
        λ k l.
          h timer_block k
            (later (later (later (later (later (later (later (later (later (later first)))))))))) l
            (timer_block.view m) in
      λ i. record (m.timer) {
        div = from_file 0 (ground arith) i;
        tac = from_file 1 (ground arith) i;
        tima = from_file 2 (ground arith) i;
        tma = from_file 3 (ground arith) i;
      }

  pub mbc1_globals-load :
      Savable saved → (load_file (some file) m).mbc1_globals ≡ saved.mbc1_globals
  unfolding load_file read_block read_blocks Holds
  mbc1_globals-load r =
      let from_file : (k : ℕ)
          → k < 0x0c
          → loaded mbc1_block file (mbc1_block.view m) k ≡ mbc1_block.view saved k =
        λ k l.
          h mbc1_block k
            (later
              (later (later (later (later (later (later (later (later (later (later first)))))))))))
            l (mbc1_block.view m) in
      λ i. record (m.mbc1_globals) {
        bank_low =
            four_bytes _ _ _ _ saved.mbc1_globals.bank_low (from_file 0 (ground arith))
              (from_file 1 (ground arith)) (from_file 2 (ground arith)) (from_file 3 (ground arith))
              r.bank_low_range i;
        bank_high =
            four_bytes _ _ _ _ saved.mbc1_globals.bank_high (from_file 4 (ground arith))
              (from_file 5 (ground arith)) (from_file 6 (ground arith)) (from_file 7 (ground arith))
              r.bank_high_range i;
        ram_enable = from_file 8 (ground arith) i;
        mode = from_file 9 (ground arith) i;
      }

  pub mbc5_globals-load : (load_file (some file) m).mbc5_globals ≡ saved.mbc5_globals
  unfolding load_file read_block read_blocks Holds
  mbc5_globals-load =
      let from_file : (k : ℕ)
          → k < 6
          → loaded mbc5_block file (mbc5_block.view m) k ≡ mbc5_block.view saved k =
        λ k l.
          h mbc5_block k
            (later (
              later (
                later
                  (later (later (later (later (later (later (later (later (later first))))))))))))
            l (mbc5_block.view m) in
      λ i. record (m.mbc5_globals) {
        dirty = from_file 0 (ground arith) i;
        ram_enable = from_file 1 (ground arith) i;
        bank_low = from_file 2 (ground arith) i;
        bank_high = from_file 3 (ground arith) i;
        ram_bank = from_file 4 (ground arith) i;
      }

  pub restored-load : Savable saved → load_file (some file) m ≡ restored saved m
  unfolding restored load_file read_block read_blocks
  restored-load r = λ i. record m {
    regs = regs-load r i;
    video = video-load r i;
    ints = ints-load i;
    timer = timer-load i;
    screen = screen-load i;
    wram = wram-load i;
    mbc1_globals = mbc1_globals-load r i;
    mbc5_globals = mbc5_globals-load i;
  }

-- What a saved slot gives back, whether or not it was in use.
pub read_state-write_state :
    (stamp title : List ℕ) (slot game : ℕ) (saved m : Machine) (disk : Disk)
    → disk.writable (state_path title slot game) ≡ true
    → Savable saved
    → read_state title slot game (write_state stamp title slot game saved disk) m ≡ restored saved m
unfolding read_state write_state
read_state-write_state stamp title slot game saved m disk w r =
    rw (w, same_self (state_path title slot game))
      (restored-load
        (overwrite (disk.states (state_path title slot game)) (state_bytes stamp saved)) saved m
        (overwrite-Holds (disk.states (state_path title slot game)) stamp saved) r)
