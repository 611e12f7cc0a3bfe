-- ===== src/Host.antt =====
-- crates/host: what runs beside the zkVM.
pub mod Adapter
pub mod KvStore
pub mod Pricing
pub mod Prover
pub mod Witness
mod Tests
mod WitnessTests
mod ProverTests
mod PricingTests
