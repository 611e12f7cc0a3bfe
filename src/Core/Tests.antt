-- ===== src/Core/Tests.antt =====
-- Journals and boot information under the codec of 32-byte slots.
use open_zk.Common.{◌≡◌, replicate, length, arith}
use open_zk.Common.Outcome.{ok}
use open_zk.Core.Types.{B256, b256_zero, StateTransitionJournal, BootInfo}
use open_zk.Core.Abi.{
  journal_to_abi_bytes, journal_from_abi_bytes, boot_to_abi_bytes, boot_from_abi_bytes,
}
use open_zk.Core.Abi.Slots.{slot_codec, slot_codec-IsAbi}
use open_zk.Core.Abi.RoundTrip.{journal_abi_round_trip, boot_abi_round_trip}

abbrev root : B256
root = replicate 32 171

abbrev journal : StateTransitionJournal
journal = record {
  l1_head = replicate 32 1;
  l2_pre_root = root;
  l2_post_root = replicate 32 205;
  l2_block_number = 1234567;
  rollup_config_hash = b256_zero;
  program_id = b256_zero;
}

abbrev boot : BootInfo
boot = record {
  l1_head = replicate 32 1;
  l2_pre_root = root;
  l2_claim = replicate 32 205;
  l2_block_number = 1234567;
  rollup_config_hash = b256_zero;
}

journal_read_back :
    (length (journal_to_abi_bytes slot_codec journal) ≡ 192)
    × (journal_from_abi_bytes slot_codec (journal_to_abi_bytes slot_codec journal) ≡ ok journal)
journal_read_back = journal_abi_round_trip slot_codec journal slot_codec-IsAbi (ground arith)

boot_read_back :
    (length (boot_to_abi_bytes slot_codec boot) ≡ 160)
    × (boot_from_abi_bytes slot_codec (boot_to_abi_bytes slot_codec boot) ≡ ok boot)
boot_read_back = boot_abi_round_trip slot_codec boot slot_codec-IsAbi (ground arith)
