-- ===== src/Base/Bits.antt =====
-- Laws of the bitwise operations on native numbers, from one equation for the lowest digit.
pub mod Step
pub mod Xor
pub mod Mask
pub mod Test
