-- ===== src/Guest/Pipeline/SafeHead.antt =====
-- The safe head, read from the preimages that the guest was given.
use open_zk.Common.{
  ◌==◌, ◌≡◌, refl, ap, ◌∙◌, Bool, true, false, if◌then◌else◌, Option, none, some, length, drop,
  replicate,
}
use open_zk.Common.Outcome.{Result, ok, err}
use open_zk.Common.Maybe.{ok_or}
use open_zk.Common.Maps.{lookup}
use open_zk.Core.{Bytes, B256}
use open_zk.Guest.Store.{
  PreimageStore, OracleError, key_not_found, buffer_length_mismatch, get, get_exact, write,
  store_oracle,
}
use open_zk.Guest.Pipeline.{Hints, fetch_safe_head_hash}

-- What the search of the store and the length of what it finds come to.
abbrev pub safe_head_in : Option Bytes → Result OracleError B256
safe_head_in none = err key_not_found
safe_head_in (some preimage) =
    if 128 == length preimage
    then ok (drop 96 preimage)
    else err (buffer_length_mismatch (length preimage) 128)

-- `get_exact` into a buffer of 128 bytes, for what the search finds.
abbrev exact : Bytes → Option Bytes → Result OracleError (Unit {0}) × Bytes
exact buf none = (err key_not_found, buf)
exact buf (some value) =
    if 128 == length value
    then (ok tt, value)
    else (err (buffer_length_mismatch (length value) 128), buf)

get_exact-found :
    (o : Option Bytes) (buf : Bytes)
    → length buf ≡ 128
    → (elim (ok_or o key_not_found) [
      | err e ↦ (err e, buf)
      | ok value ↦
          if length buf == length value
          then (ok tt, value)
          else (err (buffer_length_mismatch (length value) (length buf)), buf)
    ])
      ≡ exact buf o
get_exact-found none buf size = refl
get_exact-found (some value) buf size = rw (size)

finish : Result OracleError (Unit {0}) × Bytes → Result OracleError B256
finish r = elim r.0 [ err e ↦ err e | ok _ ↦ ok (drop 96 r.1) ]

finish-if :
    (b : Bool) (value buf : Bytes) (e : OracleError)
    → finish (if b then (ok tt, value) else (err e, buf))
      ≡ (if b then ok (drop 96 value) else err e)
unfolding finish
finish-if true value buf e = refl
finish-if false value buf e = refl

finish-exact : (buf : Bytes) (o : Option Bytes) → finish (exact buf o) ≡ safe_head_in o
unfolding finish
finish-exact buf none = refl
finish-exact buf (some value) = finish-if (128 == length value) value buf _

-- On the guest's store the safe head is the preimage of the agreed root from byte 96, where the store
-- has a preimage of 128 bytes. Otherwise the error says that there is none, or which lengths differ.
pub fetch_safe_head_hash-store :
    (hints : Hints) (store : PreimageStore) (agreed : B256)
    → fetch_safe_head_hash hints (store_oracle store) agreed
      ≡ safe_head_in (lookup store.entries (hints.keccak_key agreed))
unfolding fetch_safe_head_hash get_exact get write finish
fetch_safe_head_hash-store hints store agreed =
    let found = lookup store.entries (hints.keccak_key agreed) in
    ap finish (get_exact-found found (replicate 128 0) refl) ∙ finish-exact (replicate 128 0) found
