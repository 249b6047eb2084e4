-- ===== src/LinkLayer.antt =====
-- crates/ble-controller/src/link_layer.rs, one module for each of its objects.
pub mod Sequence
pub mod EventTx
pub mod Timing
pub mod ControlPdu
pub mod ChannelSelection
pub mod Event
pub mod AccessAddress
