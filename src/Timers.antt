-- ===== src/Timers.antt =====
-- The timers of both back ends: `MacrotaskQueue` of
-- crates/yps-interpreter/src/interpreter/event_loop.rs and of crates/yps-vm/src/promise.rs, which are
-- the same but for `clear`.
pub mod Queue
pub mod Least
pub mod Pops
mod Tests
