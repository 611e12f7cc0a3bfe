-- ===== src/Core/Abi/RoundTrip.antt =====
-- Decoding the ABI bytes of journals and boot information.
use open_zk.Common.{◌≡◌, length}
use open_zk.Common.Outcome.{ok}
use open_zk.Core.Types.{StateTransitionJournal, BootInfo}
use open_zk.Core.Abi.{
  AbiCodec, IsAbi, IsStateOutput, IsBootOutput, journal_output, boot_output, journal_to_abi_bytes,
  journal_from_abi_bytes, boot_to_abi_bytes, boot_from_abi_bytes,
}

-- For every codec that keeps the documented laws, a journal whose hashes have 32 bytes and whose
-- block number is a `u64` takes 192 bytes, and is what decoding these bytes gives.
pub journal_abi_round_trip :
    (c : AbiCodec) (j : StateTransitionJournal)
    → IsAbi c
    → IsStateOutput (journal_output j)
    → (length (journal_to_abi_bytes c j) ≡ 192)
      × (journal_from_abi_bytes c (journal_to_abi_bytes c j) ≡ ok j)
unfolding journal_to_abi_bytes journal_from_abi_bytes
journal_abi_round_trip c j laws h = (
  laws.length-encode_state (journal_output j) h,
  rw (laws.decode-encode_state (journal_output j) h),
)

-- So too for boot information, in 160 bytes.
pub boot_abi_round_trip :
    (c : AbiCodec) (b : BootInfo)
    → IsAbi c
    → IsBootOutput (boot_output b)
    → (length (boot_to_abi_bytes c b) ≡ 160)
      × (boot_from_abi_bytes c (boot_to_abi_bytes c b) ≡ ok b)
unfolding boot_to_abi_bytes boot_from_abi_bytes
boot_abi_round_trip c b laws h =
    (laws.length-encode_boot (boot_output b) h, rw (laws.decode-encode_boot (boot_output b) h))
