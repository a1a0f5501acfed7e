-- ===== src/Cpu.antt =====
-- The SM83 interpreter: carbon-pc/src/gb/Cpu.cpp.
pub mod Registers
pub mod Alu
pub mod Bus
pub mod Cb
pub mod Execute
pub mod Step
pub mod Valid
pub mod Interrupts
pub mod Stack
