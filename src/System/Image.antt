-- ===== src/System/Image.antt =====
-- `ResetStateToImageDefaults` of carbon-pc/src/gb/State.cpp: the state of a fresh process.
use open_carbon.Base.{false}
use open_carbon.State.{Machine, Cartridge, Apu}
use open_carbon.Video.Lcd.{zero_video}

-- All zero but the buttons, the transfer length and the WRAM bank. The cartridge and the sound chip
-- are not part of the image.
abbrev pub image_defaults : Cartridge → Apu → Machine
image_defaults cart apu = record {
  regs = record {
    f = 0;
    a = 0;
    c = 0;
    b = 0;
    e = 0;
    d = 0;
    l = 0;
    h = 0;
    sp = 0;
    pc = 0;
    halted = 0;
    ticks = 0;
    rst38_marker = 0;
  };
  ints = record { int_flags = 0; int_enable = 0; ime_request = 0; ime = 0; ei_delay = 0 };
  timer = record {
    div_accum = 0;
    div = 0;
    tac = 0;
    tima = 0;
    tma = 0;
    tima_accum = 0;
    tima_period = 0;
  };
  video = record zero_video { hdma_length = 0xff };
  screen = record {
    framebuffer = λ _. 0;
    dmg_tile_cache = λ _. 0;
    oam_mirror = λ _. 0;
    dmg_tile_map = λ _. 0;
    vram = λ _. 0;
    line_color_index = λ _. 0;
    line_bg_priority = λ _. 0;
    dmg_palette_rgb = λ _. 0;
    lcd_tick_accum = 0;
    lcd_mode = 0;
    frame_done = 0;
    oam = λ _. 0;
    hram = λ _. 0;
  };
  mbc1_globals = record { bank_low = 0; bank_high = 0; ram_enable = 0; mode = 0 };
  mbc5_globals = record { dirty = 0; ram_enable = 0; bank_low = 0; bank_high = 0; ram_bank = 0 };
  cart = cart;
  is_cgb = 0;
  key1 = 0;
  double_speed = 0;
  joypad_buttons = 0xff;
  joyp_select = 0;
  wram = λ _. 0;
  wram_bank = 1;
  apu = apu;
  apu_time = 0;
  host_stack = 0;
  overflowed = false;
}
