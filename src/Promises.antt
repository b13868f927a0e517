-- ===== src/Promises.antt =====
-- Promises of the bytecode machine: crates/yps-vm/src/promise.rs.
pub mod State
pub mod Settle
pub mod Chain
pub mod Aggregate
pub mod Order
pub mod Reactions
pub mod Keeping
pub mod Forever
pub mod Counting
mod Tests
