-- ===== src/LinkLayer/EventTx.antt =====
-- `ConnectionEventTxState` of crates/ble-controller/src/link_layer.rs: which payload a connection
-- event transmits, from which of two DMA slots. The array of the two slots is a record.
pub mod State
pub mod Select
pub mod Branches
pub mod Queue
pub mod Selecting
pub mod Completing
pub mod Order
pub mod Progress
pub mod Delivered
