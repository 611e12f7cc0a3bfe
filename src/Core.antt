-- ===== src/Core.antt =====
-- crates/core: the types and encodings that all the other crates exchange.
mod Types
pub mod Abi
pub use Types.*
mod Tests
