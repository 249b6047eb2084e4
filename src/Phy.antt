-- ===== src/Phy.antt =====
-- The PHY transforms of crates/ble-controller: the CRC and the whitening of PDUs.
pub mod Crc
pub mod Whitening
