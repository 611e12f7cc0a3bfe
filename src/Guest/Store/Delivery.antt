-- ===== src/Guest/Store/Delivery.antt =====
-- Preimages on their way from the host's store, crates/host/src/witness/kv_store.rs, to the guest's,
-- crates/guest/src/oracle.rs.
use open_zk.Common.{◌≡◌, refl, ap, ◌∙◌, bytes_eq, if◌then◌else◌, Option, none, some, List, [], ◌∷◌}
use open_zk.Common.Maybe.{ok_or}
use open_zk.Common.Maps.{Map, lookup, lookup-insert}
use open_zk.Core.{Bytes, B256}
use open_zk.Host.KvStore
use open_zk.Host.KvStore.{ArcMemoryKvStore, new_kv, set_all, collect, snapshot, serialize_preimages}
use open_zk.Guest.Store.{PreimageStore, key_not_found, from_rkyv_bytes, get}

-- The value of the last write to a key; what was there before, where there is none.
abbrev pub last_write : List (B256 × Bytes) → B256 → Option Bytes → Option Bytes
last_write [] key before = before
last_write ((k, value) ∷ writes) key before =
    last_write writes key (if bytes_eq k key then some value else before)

lookup-collect : (entries : Map) (key : B256) → lookup (collect entries) key ≡ lookup entries key
unfolding collect lookup
lookup-collect [] key = refl
lookup-collect ((k, v) ∷ entries) key =
    lookup-insert (collect entries) k v key ∙ rw (lookup-collect entries key)

pub lookup-set_all :
    (writes : List (B256 × Bytes)) (self : ArcMemoryKvStore) (key : B256)
    → lookup (set_all writes self).store key ≡ last_write writes key (lookup self.store key)
unfolding KvStore.set set_all
lookup-set_all [] self key = refl
lookup-set_all ((k, v) ∷ writes) self key =
    lookup-set_all writes (KvStore.set k v self) key ∙ rw (lookup-insert self.store k v key)

-- What the guest finds in the bytes that the host makes of some preimages.
pub get-serialized :
    (archive : Map → Bytes) (unarchive : Bytes → Option Map) (preimages : Map)
    → ((m : Map) → unarchive (archive m) ≡ some m)
    → (s : PreimageStore) × (from_rkyv_bytes unarchive (serialize_preimages archive preimages)
        ≡ some s)
      × ((key : B256) → get s key ≡ ok_or (lookup preimages key) key_not_found)
unfolding from_rkyv_bytes serialize_preimages get
get-serialized archive unarchive preimages undoes = (
  record { entries = collect preimages },
  rw (undoes (collect preimages)),
  λ key. ap (λ o. ok_or o key_not_found) (lookup-collect preimages key),
)

-- Where `unarchive` undoes `archive`: after any writes to the host's store, the guest accepts the
-- bytes that the host makes of its snapshot, and its store then answers each key with the value of
-- the last write to it, and with "key not found" where nothing was written.
pub get-delivered :
    (archive : Map → Bytes) (unarchive : Bytes → Option Map) (writes : List (B256 × Bytes))
    → ((m : Map) → unarchive (archive m) ≡ some m)
    → (s : PreimageStore) × (from_rkyv_bytes unarchive
          (serialize_preimages archive (snapshot (set_all writes new_kv)))
        ≡ some s)
      × ((key : B256) → get s key ≡ ok_or (last_write writes key none) key_not_found)
unfolding snapshot lookup set_all
get-delivered archive unarchive writes undoes =
    let (s, read, found) = get-serialized archive unarchive (set_all writes new_kv).store undoes in
    (s, read, λ key. found key ∙ ap (λ o. ok_or o key_not_found) (lookup-set_all writes new_kv key))
