-- ===== src/Wave.antt =====
-- Waves: src/wave.cpp.
pub mod PrivateMemory
pub mod Masks
pub mod Machine
