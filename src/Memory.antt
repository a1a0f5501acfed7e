-- ===== src/Memory.antt =====
-- The memory map: carbon-pc/src/gb/Memory.cpp, and the video memory and registers of
-- carbon-pc/src/gb/Video.cpp that it reaches.
pub mod Transfer
pub mod Wram
pub mod Vram
pub mod Timer
pub mod VideoIo
mod Map
pub mod Frame
pub mod Ram
unfoldable pub use Map.*
