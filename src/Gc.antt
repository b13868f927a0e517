-- ===== src/Gc.antt =====
-- crates/yps-vm/src/gc.rs: the cycle collector of the bytecode machine.
pub mod Heap
pub mod Mark
pub mod Sweep
pub mod Reach
pub mod Listed
pub mod Owns
pub mod Listing
pub mod Owned
pub mod Walks
pub mod Rooted
pub mod Reached
pub mod Typed
pub mod Visit
pub mod Correct
pub mod Ends
pub mod Clear
pub mod Emptied
pub mod Collect
mod Tests
