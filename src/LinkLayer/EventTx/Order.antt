-- ===== src/LinkLayer/EventTx/Order.antt =====
-- The order of the acknowledgments: sequences of calls, the first states, and the theorem.
pub mod Runs
pub mod Created
pub mod Acknowledged
