-- ===== src/Syntax.antt =====
-- Expressions, their parser and their printer: crates/yps-parser and crates/yps-fmt.
pub mod Ops
pub mod Tokens
pub mod Tree
pub mod Quote
pub mod Quoted
pub mod Print
pub mod Parse
pub mod Climb
mod Tests
pub mod Shape
pub mod Follow
pub mod Begin
pub mod Apart
pub mod Reads
pub mod Items
pub mod Access
pub mod Operate
pub mod Facts
pub mod Yields
pub mod Operands
pub mod Chains
pub mod RoundTrip
pub mod Format
pub mod Moves
pub mod Taken
pub mod Ends
