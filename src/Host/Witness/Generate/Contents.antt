-- ===== src/Host/Witness/Generate/Contents.antt =====
-- What the guest, crates/guest/src/oracle.rs, finds in the preimages of a witness.
use open_zk.Common.{
  ℕ, ◌≡◌, refl, ap, sym, ◌∙◌, bytes_eq, if◌then◌else◌, Option, none, some, List, [], ◌∷◌, ◌++◌,
}
use open_zk.Common.Outcome.{ok}
use open_zk.Common.Maybe.{ok_or}
use open_zk.Common.Maps.{Map, lookup, lookup-insert}
use open_zk.Core.{Bytes, B256, ProofRequest}
use open_zk.Core.Abi.{AbiCodec}
use open_zk.Guest.Store.{PreimageStore, key_not_found, from_rkyv_bytes, get}
use open_zk.Guest.Store.Delivery.{last_write, get-serialized, lookup-set_all}
use open_zk.Host.Adapter.{RawWitness}
use open_zk.Host.KvStore.{new_kv, set_all, snapshot}
use open_zk.Host.Witness.{RpcWitnessProvider, SingleChainHost, Values, Outside}
use open_zk.Host.Witness.Collect.{build_host_config}
use open_zk.Host.Witness.Generate.{
  local_key_indices, local_entry, insert_some, inject_local, generate_witness,
}
use open_zk.Host.Witness.Generate.Steps.{Generated, generate_witness-Generated}

last_write-append :
    (writes later : List (B256 × Bytes)) (key : B256) (before : Option Bytes)
    → last_write (writes ++ later) key before ≡ last_write later key (last_write writes key before)
last_write-append [] later key before = refl
last_write-append ((k, value) ∷ writes) later key before =
    last_write-append writes later key (if bytes_eq k key then some value else before)

module _ {W Json : Type 0} (outside : Outside W Json) where
  -- The local keys that kona's inputs have a value for, as writes.
  abbrev pub local_writes : SingleChainHost → List ℕ → W → List (B256 × Bytes)
  local_writes host [] w = []
  local_writes host (index ∷ indices) w =
      let key = outside.local_key index in
      local_entry key (outside.local_get host key w) ++ local_writes host indices w

  lookup-insert_some :
      (k : B256) (value : Option Bytes) (preimages : Map) (key : B256)
      → lookup (insert_some outside k value preimages) key
        ≡ last_write (local_entry k value) key (lookup preimages key)
  lookup-insert_some k none preimages key = refl
  lookup-insert_some k (some value) preimages key = lookup-insert preimages k value key

  lookup-inject_local :
      (host : SingleChainHost) (indices : List ℕ) (preimages : Map) (w : W) (key : B256)
      → lookup (inject_local outside host indices preimages w) key
        ≡ last_write (local_writes host indices w) key (lookup preimages key)
  unfolding inject_local
  lookup-inject_local host [] preimages w key = refl
  lookup-inject_local host (index ∷ indices) preimages w key =
      let k = outside.local_key index in
      let value = outside.local_get host k w in
      lookup-inject_local host indices (insert_some outside k value preimages) w key
      ∙ ap (λ o. last_write (local_writes host indices w) key o)
          (lookup-insert_some k value preimages key)
      ∙ sym (
          last_write-append (local_entry k value) (local_writes host indices w) key
            (lookup preimages key))

module _ {W Json : Type 0} (values : Values Json) (outside : Outside W Json) (archive : Map → Bytes)
    (codec : AbiCodec) where
  module _ (self : RpcWitnessProvider) (request : ProofRequest) (w v : W)
      (witness : RawWitness) where
    -- The host's configuration, and all that is written to the preimages.
    abbrev pub host_of :
        Generated values outside archive codec self request w v witness → SingleChainHost
    host_of g =
        build_host_config self request g.agreed g.claimed g.rollup_config_path g.l1_config_path

    abbrev pub all_writes :
        Generated values outside archive codec self request w v witness → List (B256 × Bytes)
    all_writes g = g.writes ++ local_writes outside (host_of g) local_key_indices v

  pub generate_witness-delivered :
      (unarchive : Bytes → Option Map) (self : RpcWitnessProvider) (request : ProofRequest)
      (w v : W) (witness : RawWitness)
      → ((m : Map) → unarchive (archive m) ≡ some m)
      → generate_witness values outside archive codec self request w ≡ (ok witness, v)
      → (g : Generated values outside archive codec self request w v witness) × (s : PreimageStore)
        × (from_rkyv_bytes unarchive witness.oracle_data ≡ some s)
        × ((key : B256)
            → get s key
              ≡ ok_or (last_write (all_writes self request w v witness g) key none) key_not_found)
  unfolding snapshot lookup set_all
  generate_witness-delivered unarchive self request w v witness undoes h =
      let g = generate_witness-Generated values outside archive codec self request w v witness h in
      let host = host_of self request w v witness g in
      let store = set_all g.writes new_kv in
      let (s, read, found) =
        get-serialized archive unarchive
          (inject_local outside host local_key_indices (snapshot store) v) undoes in
      (
        g,
        s,
        ap (from_rkyv_bytes unarchive) g.oracle_data ∙ read,
        λ key.
            found key
            ∙ ap (λ o. ok_or o key_not_found)
                (lookup-inject_local outside host local_key_indices (snapshot store) v key
                  ∙ ap (λ o. last_write (local_writes outside host local_key_indices v) key o)
                      (lookup-set_all g.writes new_kv key)
                  ∙ sym (
                      last_write-append g.writes (local_writes outside host local_key_indices v) key
                        none)),
      )
