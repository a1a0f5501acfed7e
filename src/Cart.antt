-- ===== src/Cart.antt =====
-- carbon-pc/src/gb/Cartridge.cpp: the virtual calls of `carts::current`, by class.
mod Defs
pub mod Ram
pub mod RamSizes
pub mod Load
pub mod Boot
pub mod Saves
pub mod Files
pub mod Mbc1
pub mod Mbc3
pub mod Mbc5
unfoldable pub use Defs.*
