-- ===== src/Hal/DataFlash.antt =====
-- The driver of the data flash: src/dataflash.rs and src/dataflash_protocol.rs.
pub mod Transaction
pub mod Storage
pub mod Closing
pub mod Restoring
pub mod Programs
