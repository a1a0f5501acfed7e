-- ===== src/Audio.antt =====
-- The sound output: the thread of carbon-pc/src/gb/Audio.cpp with its heap blocks, and the output
-- device of carbon-pc/src/platform/AudioOut.cpp.
pub mod Blocks
pub mod Out
pub mod Thread
