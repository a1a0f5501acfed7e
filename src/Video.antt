-- ===== src/Video.antt =====
-- The LCD: carbon-pc/src/gb/Video.cpp, without the memory and registers that the memory map reaches.
pub mod Pixel
pub mod Background
pub mod Sprites
pub mod Drawn
pub mod Lcd
