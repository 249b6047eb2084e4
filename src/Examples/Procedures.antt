-- ===== src/Examples/Procedures.antt =====
-- Procedures on concrete values.
pub mod Control
pub mod Selection
pub mod Pdus
