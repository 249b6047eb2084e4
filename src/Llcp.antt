-- ===== src/Llcp.antt =====
-- The ownership of the control procedures: crates/ble-controller/src/llcp.rs. The operations stand in
-- the first four modules, the theorems in the others.
pub mod Procedure
pub mod Start
pub mod Transmit
pub mod Timers
pub mod Invariant
pub mod Calls
pub mod Refusal
pub mod Starting
pub mod Timeout
pub mod Instants
