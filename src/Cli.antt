-- ===== src/Cli.antt =====
-- crates/cli: the command-line tool.
pub mod Halt
pub mod Config
pub mod Estimate
pub mod Files
pub mod Witness
pub mod FastTrack
pub mod Zkvms
pub mod Prove
pub mod Status
pub mod Serve
mod Tests
mod CommandTests
