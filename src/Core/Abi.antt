-- ===== src/Core/Abi.antt =====
-- crates/core/src/types/journal.rs and witness_data.rs: journals and boot information as ABI bytes.
-- The encoding of the Solidity structs is that of the crate `alloy_sol_types`, an argument here.
pub mod Slots
pub mod RoundTrip
use open_zk.Common.{ℕ, ◌≡◌, Text, length}
use open_zk.Common.Outcome.{Result, ok, err}
use open_zk.Common.Words.{IsU64}
use open_zk.Core.Types.{Bytes, B256, IsB256, StateTransitionJournal, BootInfo}

-- The structs of the two `sol!` blocks.
pub record StateTransitionOutput : Type 0 where
  pub l1_head : B256
  pub l2_pre_root : B256
  pub l2_post_root : B256
  pub l2_block_number : ℕ
  pub rollup_config_hash : B256
  pub program_id : B256

pub record BootInfoOutput : Type 0 where
  pub l1_head : B256
  pub l2_pre_root : B256
  pub l2_claim : B256
  pub l2_block_number : ℕ
  pub rollup_config_hash : B256

-- What the types allow: five or four hashes of 32 bytes, and a `u64`.
pub record IsStateOutput (o : StateTransitionOutput) : Type 0 where
  pub l1_head : IsB256 o.l1_head
  pub l2_pre_root : IsB256 o.l2_pre_root
  pub l2_post_root : IsB256 o.l2_post_root
  pub l2_block_number : IsU64 o.l2_block_number
  pub rollup_config_hash : IsB256 o.rollup_config_hash
  pub program_id : IsB256 o.program_id

pub record IsBootOutput (o : BootInfoOutput) : Type 0 where
  pub l1_head : IsB256 o.l1_head
  pub l2_pre_root : IsB256 o.l2_pre_root
  pub l2_claim : IsB256 o.l2_claim
  pub l2_block_number : IsU64 o.l2_block_number
  pub rollup_config_hash : IsB256 o.rollup_config_hash

-- `abi_encode_params` and `abi_decode_params` at the two structs.
pub record AbiCodec : Type 0 where
  pub encode_state : StateTransitionOutput → Bytes
  pub decode_state : Bytes → Result Text StateTransitionOutput
  pub encode_boot : BootInfoOutput → Bytes
  pub decode_boot : Bytes → Result Text BootInfoOutput

-- What the crate documents: the static fields take 32 bytes each, and decoding undoes encoding.
pub record IsAbi (c : AbiCodec) : Type 0 where
  pub decode-encode_state :
      (o : StateTransitionOutput) → IsStateOutput o → c.decode_state (c.encode_state o) ≡ ok o
  pub length-encode_state :
      (o : StateTransitionOutput) → IsStateOutput o → length (c.encode_state o) ≡ 192
  pub decode-encode_boot :
      (o : BootInfoOutput) → IsBootOutput o → c.decode_boot (c.encode_boot o) ≡ ok o
  pub length-encode_boot : (o : BootInfoOutput) → IsBootOutput o → length (c.encode_boot o) ≡ 160

abbrev pub map_ok : {A B : Type 0} → (A → B) → Result Text A → Result Text B
map_ok f (ok a) = ok (f a)
map_ok f (err e) = err e

-- `StateTransitionJournal::to_abi_bytes` and `from_abi_bytes`.
abbrev pub journal_output : StateTransitionJournal → StateTransitionOutput
journal_output j = record {
  l1_head = j.l1_head;
  l2_pre_root = j.l2_pre_root;
  l2_post_root = j.l2_post_root;
  l2_block_number = j.l2_block_number;
  rollup_config_hash = j.rollup_config_hash;
  program_id = j.program_id;
}

abbrev pub output_journal : StateTransitionOutput → StateTransitionJournal
output_journal o = record {
  l1_head = o.l1_head;
  l2_pre_root = o.l2_pre_root;
  l2_post_root = o.l2_post_root;
  l2_block_number = o.l2_block_number;
  rollup_config_hash = o.rollup_config_hash;
  program_id = o.program_id;
}

unfoldable pub journal_to_abi_bytes : AbiCodec → StateTransitionJournal → Bytes
journal_to_abi_bytes c j = c.encode_state (journal_output j)

unfoldable pub journal_from_abi_bytes : AbiCodec → Bytes → Result Text StateTransitionJournal
journal_from_abi_bytes c bytes = map_ok output_journal (c.decode_state bytes)

-- `BootInfo::to_abi_bytes` and `from_abi_bytes`.
abbrev pub boot_output : BootInfo → BootInfoOutput
boot_output b = record {
  l1_head = b.l1_head;
  l2_pre_root = b.l2_pre_root;
  l2_claim = b.l2_claim;
  l2_block_number = b.l2_block_number;
  rollup_config_hash = b.rollup_config_hash;
}

abbrev pub output_boot : BootInfoOutput → BootInfo
output_boot o = record {
  l1_head = o.l1_head;
  l2_pre_root = o.l2_pre_root;
  l2_claim = o.l2_claim;
  l2_block_number = o.l2_block_number;
  rollup_config_hash = o.rollup_config_hash;
}

unfoldable pub boot_to_abi_bytes : AbiCodec → BootInfo → Bytes
boot_to_abi_bytes c b = c.encode_boot (boot_output b)

unfoldable pub boot_from_abi_bytes : AbiCodec → Bytes → Result Text BootInfo
boot_from_abi_bytes c bytes = map_ok output_boot (c.decode_boot bytes)
