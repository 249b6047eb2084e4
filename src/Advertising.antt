-- ===== src/Advertising.antt =====
-- The legacy advertising PDUs of crates/ble-controller/src/advertising.rs: the definitions in the first
-- three modules, the theorems in the others.
pub mod Address
pub mod Legacy
pub mod Connection
pub mod Slices
pub mod Data
pub mod Advertisement
pub mod Connect
pub mod Addresses
