-- ===== src/Orchestrator.antt =====
-- crates/orchestrator: what needs proving, in which pieces, and the loop that has it proved.
pub mod Intent
pub mod Monitor
pub mod RpcMonitor
pub mod Planner
pub mod Dispatcher
pub mod Engine
mod Tests
