-- ===== src/App.antt =====
-- The application layer: carbon-pc/src/app/App.cpp, App.h and Input.cpp.
pub mod Definition
pub mod Input
pub mod State
pub mod Pause
pub mod Keys
pub mod Wave
pub mod Voices
pub mod Menu
pub mod Update
pub mod Run
pub mod Valid
