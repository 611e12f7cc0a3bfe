-- ===== src/Guest/Store.antt =====
-- crates/guest/src/oracle.rs: the preimages that the guest was given, read-only. What rkyv makes of
-- bytes is a parameter, and so is `kona`'s interface of an oracle, of which this is one.
pub mod Delivery
use open_zk.Common.{
  ℕ, ◌==◌, Bool, if◌then◌else◌, not, Option, none, some, List, [], ◌∷◌, length, Text,
}
use open_zk.Common.Outcome.{Result, ok, err}
use open_zk.Common.Maybe.{◌>>=◌, ok_or}
use open_zk.Common.Maps.{Map, lookup}
use open_zk.Core.{Bytes, B256}

pub record PreimageStore : Type 0 where
  pub entries : Map

pub data OracleError : Type 0 where
  key_not_found : OracleError
  buffer_length_mismatch : ℕ → ℕ → OracleError

-- `PreimageStore::new`
abbrev pub new_store : Map → PreimageStore
new_store entries = record { entries = entries }

unfoldable pub from_rkyv_bytes : (Bytes → Option Map) → Bytes → Option PreimageStore
from_rkyv_bytes unarchive raw = do entries ← unarchive raw; some (new_store entries)

unfoldable pub len : PreimageStore → ℕ
len self = length self.entries

unfoldable pub is_empty : PreimageStore → Bool
unfolding len
is_empty self = len self == 0

unfoldable pub get : PreimageStore → B256 → Result OracleError Bytes
get self key = ok_or (lookup self.entries key) key_not_found

-- The result, and the buffer afterwards.
unfoldable pub get_exact : PreimageStore → B256 → Bytes → Result OracleError (Unit {0}) × Bytes
unfolding get
get_exact self key buf = elim (get self key) [
  | err e ↦ (err e, buf)
  | ok value ↦
      if length buf == length value
      then (ok tt, value)
      else (err (buffer_length_mismatch (length value) (length buf)), buf)
]

-- `HintWriterClient::write` does nothing.
unfoldable pub write : PreimageStore → Text → Result OracleError (Unit {0})
write self hint = ok tt

-- What the guest asks of an oracle: `CommsClient`.
pub record Oracle : Type 0 where
  pub get : B256 → Result OracleError Bytes
  pub get_exact : B256 → Bytes → Result OracleError (Unit {0}) × Bytes
  pub write : Text → Result OracleError (Unit {0})

abbrev pub store_oracle : PreimageStore → Oracle
store_oracle s = record { get = get s; get_exact = get_exact s; write = write s }
