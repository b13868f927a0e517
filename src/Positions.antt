-- ===== src/Positions.antt =====
-- Positions of the language server: crates/yps-lsp/src/position.rs.
pub mod Convert
pub mod Text
pub mod RoundTrip
pub mod Clamp
pub mod Word
pub mod Runs
pub mod Receiver
mod Tests
