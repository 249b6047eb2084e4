-- ===== src/Examples/Backend.antt =====
-- The backend on concrete values.
pub mod Values
pub mod Traffic
pub mod Instants
pub mod Host
