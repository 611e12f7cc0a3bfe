-- ===== src/Core/Types.antt =====
-- The data types of crates/core/src/types, which all the other crates exchange.
-- A `B256` and a byte vector are lists of bytes; `IsB256` says that a list is 32 bytes.
use open_zk.Common.{ℕ, ◌<◌, ◌≡◌, List, Option, All, Text, length, replicate}

abbrev pub Bytes : Type 0
Bytes = List ℕ

abbrev pub B256 : Type 0
B256 = List ℕ

abbrev pub IsByte : ℕ → Type 0
IsByte b = b < 256

abbrev pub IsB256 : B256 → Type 0
IsB256 h = (length h ≡ 32) × All IsByte h

-- `B256::ZERO`
abbrev pub b256_zero : B256
b256_zero = replicate 32 0

pub data ProofMode : Type 0 where
  beacon sentinel : ProofMode

pub data SecurityLevel : Type 0 where
  maximum standard economy : SecurityLevel

pub data ZkvmBackend : Type 0 where
  sp1 risc_zero auto mock : ZkvmBackend

pub data ProvingMode : Type 0 where
  groth16 compressed execute : ProvingMode

pub record ProofArtifact : Type 0 where
  pub backend : ZkvmBackend
  pub mode : ProvingMode
  pub proof_bytes : Bytes
  pub public_values : Bytes
  pub program_id : B256
  pub cycle_count : Option ℕ

pub record ProofRequest : Type 0 where
  pub l1_head : B256
  pub l2_start_block : ℕ
  pub l2_end_block : ℕ
  pub l2_start_output_root : B256
  pub mode : ProvingMode

pub record StateTransitionJournal : Type 0 where
  pub l1_head : B256
  pub l2_pre_root : B256
  pub l2_post_root : B256
  pub l2_block_number : ℕ
  pub rollup_config_hash : B256
  pub program_id : B256

pub record BootInfo : Type 0 where
  pub l1_head : B256
  pub l2_pre_root : B256
  pub l2_claim : B256
  pub l2_block_number : ℕ
  pub rollup_config_hash : B256

pub record CycleEstimate : Type 0 where
  pub cycles : ℕ
  pub backend : ZkvmBackend

-- The two with amounts of money, for a type of floating-point numbers.
pub record PricingInfo (F : Type 0) : Type 0 where
  pub cost_usd : F
  pub duration_secs : ℕ
  pub source : Text
  pub native_cost : Option F
  pub native_symbol : Option Text
  pub token_usd_rate : Option F

pub record CostEstimate (F : Type 0) : Type 0 where
  pub estimated_cycles : ℕ
  pub estimated_cost_usd : F
  pub estimated_duration_secs : ℕ
