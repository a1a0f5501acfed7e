-- ===== src/Platform.antt =====
-- Files and scripted input of the host: carbon-pc/src/platform.
pub mod Stream
pub mod Window
pub mod Paths
pub mod Script
