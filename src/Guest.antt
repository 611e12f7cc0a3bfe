-- ===== src/Guest.antt =====
-- crates/guest and guests: the programs that run in the zkVM.
pub mod Aggregation
pub mod DataSource
pub mod Store
pub mod Pipeline
pub mod Chain
mod Tests
mod DataTests
