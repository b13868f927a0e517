-- ===== src/Bytecode.antt =====
-- Expressions in bytecode: the compiler and the loop of the machine.
pub mod Values
pub mod Result
pub mod Chunk
pub mod Machine
pub mod Exec
pub mod Tree
pub mod Fold
pub mod Locals
pub mod Eval
pub mod Arms
pub mod Compile
pub mod Accepts
pub mod Segments
pub mod Patches
pub mod Branches
pub mod Means
pub mod Operators
pub mod Jumps
pub mod Slots
pub mod Variables
pub mod Folding
pub mod Effects
pub mod Forms
pub mod Correct
pub mod Runs
mod Tests
