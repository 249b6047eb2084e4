-- ===== src/Hal.antt =====
-- The peripherals of src.
pub mod Uart
pub mod DataFlash
