-- ===== src/Env.antt =====
-- crates/yps-interpreter/src/environment.rs: the interpreter's scope chains.
pub mod Frame
pub mod Walk
pub mod Ops
pub mod Assign
pub mod Chain
pub mod Valid
pub mod Resolve
pub mod Steps
pub mod Laws
pub mod Blocks
pub mod Visible
pub mod Assigning
pub mod Registry
mod Tests
