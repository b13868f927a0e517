-- ===== src/Objects.antt =====
-- The properties of objects in the bytecode machine: crates/yps-vm/src/value.rs and the inline
-- caches of crates/yps-vm/src/vm.rs.
pub mod Index
pub mod Map
pub mod Classes
pub mod Cache
pub mod Edits
pub mod Fresh
pub mod Lineage
pub mod Tables
pub mod Stale
mod Tests
