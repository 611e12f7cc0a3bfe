-- ===== src/Host/KvStore.antt =====
-- crates/host/src/witness/kv_store.rs: the preimages that the host collects, and their bytes. The
-- mutex makes every operation atomic, so that the store is a value that operations replace; clones
-- share it. How rkyv archives a map is a parameter.
use open_zk.Common.{ℕ, ◌==◌, Bool, Option, List, [], ◌∷◌, length}
use open_zk.Common.Maybe.{◌>>=◌}
use open_zk.Common.Maps.{Map, lookup, insert}
use open_zk.Core.{Bytes, B256}

pub record ArcMemoryKvStore : Type 0 where
  pub store : Map

-- `new` and `default`
abbrev pub new_kv : ArcMemoryKvStore
new_kv = record { store = [] }

unfoldable pub snapshot : ArcMemoryKvStore → Map
snapshot self = self.store

unfoldable pub len : ArcMemoryKvStore → ℕ
len self = length self.store

unfoldable pub is_empty : ArcMemoryKvStore → Bool
unfolding len
is_empty self = len self == 0

unfoldable pub get : ArcMemoryKvStore → B256 → Option Bytes
get self key = lookup self.store key

unfoldable pub set : B256 → Bytes → ArcMemoryKvStore → ArcMemoryKvStore
set key value self = record { store = insert key value self.store }

-- The store after some writes, the first of the list first.
unfoldable pub set_all : List (B256 × Bytes) → ArcMemoryKvStore → ArcMemoryKvStore
unfolding set
set_all [] self = self
set_all ((key, value) ∷ writes) self = set_all writes (set key value self)

-- `preimages.iter().map(...).collect()`. The order of a hash map's entries is not specified; here
-- the last comes first.
unfoldable pub collect : Map → Map
collect [] = []
collect ((k, v) ∷ entries) = insert k v (collect entries)

unfoldable pub serialize_preimages : (Map → Bytes) → Map → Bytes
unfolding collect
serialize_preimages archive preimages = archive (collect preimages)

unfoldable pub deserialize_preimages : (Bytes → Option Map) → Bytes → Option Map
unfolding collect
deserialize_preimages unarchive data_bytes = do
  entries ← unarchive data_bytes
  Option.some (collect entries)
