-- ===== src/Backend/Acl.antt =====
-- The ACL packets of the host, from `queue_acl` to their acknowledgment, in
-- crates/ch58x-ble/src/link_layer.rs.
pub mod Slots
pub mod Queueing
pub mod Untouched
pub mod Calm
pub mod Received
pub mod Moves
pub mod Heard
pub mod Staging
pub mod Acknowledging
pub mod Eventful
pub mod Event
pub mod Session
pub mod Balance
pub mod Delivery
