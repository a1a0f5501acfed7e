-- ===== src/Lib.antt =====
-- OpenCarbon: the Game Boy core carbon-pc/src/gb (the processor, the memory map with its transfers,
-- the timer, the LCD, the cartridges with their save files, the save states, the audio thread and the
-- frame loop), its output device carbon-pc/src/platform/AudioOut.cpp, and the application that drives
-- it, carbon-pc/src/app.
--
-- The parts and their files
--   State   carbon-pc/src/gb/State.h and the cartridge classes of Cartridge.h as records. A field
--           keeps its name in snake case; a byte array is a function from the index.
--   Cart    carbon-pc/src/gb/Cartridge.cpp: Files (LoadSramFile, SaveSramFile, LoadSram, FlushSram),
--           Mbc1, Mbc3, Mbc5 (constructors, Write, Read, AdvanceRtc, LatchRtc), Defs (the virtual calls
--           of `carts::current`), RamSizes and Load (kRamSizeTable, ReadRom, Load); proofs in Ram, Saves,
--           Boot and Mbc3/Clock.
--   Memory  carbon-pc/src/gb/Memory.cpp and the memory side of Video.cpp: Wram (WramRead, WramWrite),
--           Vram (VramRead, VramWrite), Timer (TimerRead, TimerWrite, TimerStep), VideoIo (VideoIoRead
--           and the plain registers of VideoIoWrite), Map (Read8, Write8, Read16, Write16, OAM DMA,
--           GDMA, DmaCopy16); proofs in Frame, Ram, Transfer (general transfers), Timer/Count and Timer/Div.
--   Cpu     carbon-pc/src/gb/Cpu.cpp: Registers, Alu, Bus (fetches, stack, jumps, STOP), Cb (ExecuteCb),
--           Execute with Execute/Cases, Low and High (the switch of Execute), Step (CpuStep,
--           ServiceInterrupts, CpuReset); proofs in Alu/Flags, Alu/Decimal, Stack, Interrupts and Valid.
--   Video   carbon-pc/src/gb/Video.cpp: Pixel, Background, Sprites (the three renderers), Lcd (LcdStep,
--           RenderScanline, VideoReset); proofs in Drawn and below Lcd.
--   System  carbon-pc/src/gb/System.cpp (Boot: Init and Reset; Frame: RunInstruction and RunFrame),
--           the image of a fresh process of State.cpp (Image), the joypad of Memory.cpp, and the sample
--           ring of Audio.cpp (Ring); proofs below each. StateBlocks (StateBlock and the
--           table of System.cpp) and SaveFile (WriteState, ReadState, SaveState, LoadState; below it
--           LoadSlotPreviews in Slots, and proofs in Layout, Paths, Holds, RoundTrip and Restore).
--   Audio   Blocks (the heap blocks of carbon-pc/src/gb/Audio.cpp), Out (carbon-pc/src/platform/AudioOut.cpp)
--           and Thread (AudioThreadMain of Audio.cpp, one step at a time, with the device and the console's
--           thread as the other steps); proofs in Blocks/Launches, Thread/Line, Thread/Awake and Thread/Waits.
--   Platform  carbon-pc/src/platform/Paths.cpp, and of win32/Script.cpp ParseButtons, PadState and EventsAt;
--           Window (win32/Platform_win32.cpp: the picture's place, the clock, the pace of the rounds, keys and
--           controller), Stream (win32/AudioStream_wasapi.cpp: Write, WaitSilently; Dump: the file it may
--           write); proofs in Window/Canvas, Window/Pace, Window/Pad and Stream/Sent.
--   App     carbon-pc/src/app/Input.cpp (Input), the state of App.h, Globals.h and Renderer.h (State), and
--           App.cpp: Pause, Keys (InGame), Menu (MainMenu, Artwork) and Update (the rest of UpdateInput), Run (Init, Run,
--           CloseGameOnExitRequest); Wave (Wave::Load of MenuAudio.cpp); proofs in Input/Edges, Wave/Chunks,
--           Wave/Plain, Pause/Released, Run/Exit and below Valid.
--           Definition (GameDef.cpp: Load), with proofs in Definition/Titles; Voices (Voice and the rounds of
--           ThreadMain of MenuAudio.cpp), with proofs in Voices/Reads; Wave/Dumped reads the dump's file.
--   Screen  carbon-pc/src/app/Renderer.cpp as lists of draw calls: Hue (kHueTable of Globals.cpp), Menu
--           (DrawMainMenu, DrawMenuList), Launch (DrawLaunchTransition), Pause (DrawPauseMenu,
--           DrawPauseOptions), Present (PresentGB, PresentGBA); Artwork (Select and Draw of
--           carbon-pc/src/app/Artwork.cpp), Tga and Glyphs (LoadTga and Print of
--           carbon-pc/src/gfx/TextRenderer.cpp); proofs in Hue/Range, Menu/Selected, Launch/Ends,
--           Pause/Slots, Artwork/Faded, Tga/Reading, Tga/Filled and Glyphs/Lines.
--   Diff    the entry points of carbon-pc/src/diff/GbDiffApi.cpp; proofs in Diff/Ending and Diff/Budget.
--   Tests   the theorems at concrete states.
--
-- How they interact: RunInstruction runs one instruction of the CPU, which reads and writes through
-- the memory map; then the interrupts, the LCD, the sound library and the timer are given the ticks
-- that it took. The state is passed explicitly: an operation takes a machine and returns one. The
-- application reads the controller, moves between its states and calls the core: keys, save states, Init,
-- Reset, Shutdown and a frame per round. The audio thread drains the ring into two buffers, which go round
-- through the output device; the threads' steps come in any order.
--
-- Bounds and fuel
--   A write to FF55 copies memory with further writes, which may again be writes to FF55. `write8_at`
--   has a depth: the nesting left on the host's stack; a machine that runs over it is marked
--   `overflowed` and stands for a crashed process. A general transfer has at most 128 blocks, which is
--   the fuel of its loop. The loops of TimerStep have as fuel 256, the number of values of TIMA, and
--   the accumulator, which every round of the outer loop lowers. The frame loop has fuel, and `none`
--   says that it ran out: a program that keeps the LCD off never ends a frame.
--   Integers of the source are natural numbers with the wrap-around written out. A negative `int32_t`
--   does not occur in the timer or in the LCD; where the source subtracts in `uint32_t`, 2 ^ 32 is added.
--   The walk over the chunks of a sound file has 0x400 rounds: more are only made by a walk that never ends.
--   `none` of UpdateInput is the dereference of the null cartridge, or Load's abort.
--
-- Taken as parameters: the sound library Gb_Snd_Emu, by the list of the calls made of it, its answer to
-- a register read (`Apu`) and its samples (`Stereo`), where a register read is taken to leave later
-- answers as they are; the host's clock, as the answers to the calls of `std::time` (`Rtc`); a
-- file, as its bytes and whether it can be written, found by its path, with the answer to
-- `Paths::Resolve` in it; the local time as text; the captured heap contents; the arithmetic of the
-- volume's floats (`Volume`), of the screens' (`Floats`) and of the voices' positions (`Positions`), which tell whole frames apart below 2 ^ 53; the pictures' sizes and divisions (`Pictures`); Windows'
-- answers to the sound stream (`Answer`, `Opening`); the bytes that a short read leaves, and
-- what stands in memory behind a ROM's buffer; the XML library (`Xml`); what the renderer leaves in the globals in a round (`Drawing`, with colours in thousandths,
-- so that the application does not depend on floats); the game
-- definition (`Host`). Calls of the other console's emulator and of the screens are a list (`HostCall`).
--
-- Not modelled: accesses outside an array, which land in the neighbouring field of a block, are kept to
-- the array, except from OAM to the high RAM behind it; the monochrome renderer, which the program
-- does not contain; the colours of the fades in App, but for where the input handler sets them; the
-- loading of textures, shaders and fonts with the other calls of OpenGL; the
-- start of the menu's sound thread; the reader of a script's lines; the hooks of the comparison tool; the
-- movie player and the page of the credits; and the calls of Windows themselves.
pub mod Base
pub mod State
pub mod Cart
pub mod Memory
pub mod Cpu
pub mod Video
pub mod System
pub mod Audio
pub mod Platform
pub mod App
pub mod Screen
pub mod Diff
pub mod Tests
