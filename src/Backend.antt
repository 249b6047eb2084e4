-- ===== src/Backend.antt =====
-- The backend that drives the radio, crates/ch58x-ble/src: the transport to the host, and the state
-- and the operations of a connection, which call the models of crates/ble-controller.
pub mod Transport
pub mod Connection
pub mod Schedule
pub mod Queue
pub mod Control
pub mod Frame
pub mod Emit
pub mod Received
pub mod Event
pub mod Commands
pub mod Connected
pub mod Run
pub mod Acl
pub mod Advertise
