-- ===== src/Tests.antt =====
-- The theorems at concrete machines.
mod Data
mod Cpu
mod Memory
mod Video
mod Cart
mod System
mod Saves
mod App
mod Audio
mod Wave
mod Diff
mod Screen
mod Platform
