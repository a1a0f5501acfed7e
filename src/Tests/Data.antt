-- ===== src/Tests/Data.antt =====
-- Concrete machines: one in its state after the boot ROM with a program in work RAM, and one with
-- the LCD switched on.
use open_carbon.Base.{arith, [], update}
use open_carbon.State.{Machine, Apu, system_only}
use open_carbon.Cpu.Valid.{RegsIsValid}
use open_carbon.System.Image.{image_defaults}

-- A sound chip that answers zero.
abbrev pub silent : Apu
silent = record { calls = []; read_register = λ calls time addr. 0 }

abbrev pub fresh : Machine
fresh = image_defaults system_only silent

-- ADD A,B at C000 with 0x9a + 0x66; the stack is in high RAM.
abbrev pub adding : Machine
adding = record fresh {
  regs = record (fresh.regs) { a = 0x9a; b = 0x66; f = 0xf0; sp = 0xfffe; pc = 0xc000 };
  wram = update (fresh.wram) 0 0x80;
}

pub adding-RegsIsValid : RegsIsValid (adding.regs)
adding-RegsIsValid = ground arith

-- The LCD at the start of line 143.
abbrev pub drawing : Machine
drawing = record fresh {
  is_cgb = 1;
  video = record (fresh.video) { lcdc = 0x91; stat = 2; ly = 143 };
}
