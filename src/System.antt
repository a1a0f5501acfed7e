-- ===== src/System.antt =====
-- The machine as a whole: carbon-pc/src/gb/System.cpp, the image of carbon-pc/src/gb/State.cpp, the
-- joypad of carbon-pc/src/gb/Memory.cpp and the sample ring of carbon-pc/src/gb/Audio.cpp.
pub mod Joypad
pub mod Ring
pub mod Image
pub mod Boot
pub mod Frame
pub mod StateBlocks
pub mod SaveFile
