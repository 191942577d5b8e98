-- ===== src/Std.antt =====
-- The parts of Rust's standard library that the modelled code calls.
pub mod Text
pub mod Format
pub mod Map
pub mod Path
pub mod Split
pub mod Parse
pub mod Decimal
pub mod Io
