-- ===== src/Host/Witness/Output/SafeHead.antt =====
-- The root that the host derives from a header, and the safe head that the guest,
-- crates/guest/src/pipeline.rs, reads from its preimage.
use open_zk.Common.{
  ℕ, ◌≡◌, refl, sym, ap, ◌∙◌, some, ◌++◌, length, drop, length-append, drop-append_length, Text,
  arith,
}
use open_zk.Common.Outcome.{ok}
use open_zk.Common.Maybe.{unwrap_or}
use open_zk.Common.Maps.{lookup}
use open_zk.Core.{Bytes, B256, b256_zero}
use open_zk.Guest.Store.{PreimageStore, store_oracle}
use open_zk.Guest.Pipeline.{Hints, fetch_safe_head_hash}
use open_zk.Guest.Pipeline.SafeHead.{safe_head_in, fetch_safe_head_hash-store}
use open_zk.Host.Witness.{Header, Outside}
use open_zk.Host.Witness.Output.{output_payload, derived_root}

-- What the types of alloy say of a header: its hashes have 32 bytes.
pub record IsHeader (header : Header) : Type 0 where
  pub hash : length header.hash ≡ 32
  pub state_root : length header.state_root ≡ 32
  pub withdrawals_root : length (unwrap_or header.withdrawals_root b256_zero) ≡ 32

-- The fields of the payload before the hash.
abbrev front : Header → Bytes
front header = b256_zero ++ header.state_root ++ unwrap_or header.withdrawals_root b256_zero

payload_eq : (header : Header) → output_payload header ≡ front header ++ header.hash
unfolding output_payload
payload_eq header = refl

length-front : (header : Header) → IsHeader header → length (front header) ≡ 96
length-front header sized = omega (
  arith,
  length-append header.state_root (unwrap_or header.withdrawals_root b256_zero),
  sized.state_root,
  sized.withdrawals_root,
)

drop-payload : (header : Header) → IsHeader header → drop 96 (output_payload header) ≡ header.hash
drop-payload header sized =
    ap (drop 96) (payload_eq header)
    ∙ ap (λ (n : ℕ). drop n (front header ++ header.hash)) (sym (length-front header sized))
    ∙ drop-append_length (front header) header.hash

length-payload : (header : Header) → IsHeader header → length (output_payload header) ≡ 128
length-payload header sized =
    ap length (payload_eq header)
    ∙ length-append (front header) header.hash
    ∙ omega (arith, length-front header sized, sized.hash)

safe_head_in_sized : (p : Bytes) → length p ≡ 128 → safe_head_in (some p) ≡ ok (drop 96 p)
safe_head_in_sized p size = rw (size)

module _ {W Json : Type 0} (outside : Outside W Json) where
  pub fetch_safe_head_hash-derived_root :
      (hints : Hints) (header : Header) (store : PreimageStore) (l2_url : Text) (block_number : ℕ)
      (w v : W)
      → IsHeader header
      → outside.get_block_by_number l2_url block_number w ≡ (ok (some header), v)
      → lookup store.entries (hints.keccak_key (outside.keccak256 (output_payload header)))
        ≡ some (output_payload header)
      → (root : B256) × (derived_root outside l2_url block_number w ≡ (ok root, v))
        × (fetch_safe_head_hash hints (store_oracle store) root ≡ ok header.hash)
  unfolding derived_root
  fetch_safe_head_hash-derived_root hints header store l2_url block_number w v sized found held = (
    outside.keccak256 (output_payload header),
    rw (found),
    fetch_safe_head_hash-store hints store _
        ∙ ap safe_head_in held
        ∙ safe_head_in_sized (output_payload header) (length-payload header sized)
        ∙ ap ok (drop-payload header sized),
  )
