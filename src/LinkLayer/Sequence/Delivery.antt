-- ===== src/LinkLayer/Sequence/Delivery.antt =====
-- The delivery of payloads: the link, its invariant, and the theorems.
pub mod Link
pub mod Linked
pub mod Delivered
