-- ===== src/Guest/DataTests.antt =====
-- The batches of a small block, and preimages on their way from the host to the guest.
use open_zk.Common.{
  ◌≡◌, refl, inr, Option, none, some, List, [], ◌∷◌, ◌++◌, bytes_eq, if◌then◌else◌,
}
use open_zk.Common.Outcome.{Result, ok, err}
use open_zk.Common.Maybe.{ok_or}
use open_zk.Common.Archive.{archive, unarchive, unarchive-archive}
use open_zk.Core.{Bytes, B256}
use open_zk.Host.KvStore.{snapshot, serialize_preimages, new_kv, set_all}
use open_zk.Guest.Store.{PreimageStore, key_not_found, from_rkyv_bytes, get}
use open_zk.Guest.Store.Delivery.{last_write, get-delivered}
use open_zk.Guest.DataSource.{
  TxKind, Tx, DataSource, eof, celestia_prefix, eigenda_prefix, generic_prefix, next, clear,
  push_txs, load_batch_data, pop_front, push_tx, push_data, is_read, resolve_commitment, new_source,
}
use open_zk.Guest.DataSource.Queue.{answers, serve, batches, answers-batches}
use open_zk.Guest.DataSource.Withheld.{load_batch_data-withheld}

abbrev inbox : Bytes
inbox = 255 ∷ []

abbrev batcher : Bytes
batcher = 77 ∷ []

-- The signature of these transactions is the address of their signer.
abbrev signer : Tx → Option Bytes
signer tx = some tx.signature

abbrev batch_tx : Bytes → Tx
batch_tx input = record {
  kind = TxKind.eip1559;
  to = some inbox;
  input = input;
  signature = batcher;
}

-- Calldata, a Celestia commitment that the oracle knows, one that it does not know, and a
-- transaction of another sender.
abbrev txs : List Tx
txs =
    batch_tx (5 ∷ 6 ∷ [])
    ∷ batch_tx (celestia_prefix ∷ 1 ∷ [])
    ∷ batch_tx (celestia_prefix ∷ 2 ∷ [])
    ∷ record { kind = TxKind.legacy; to = some inbox; input = 9 ∷ []; signature = 78 ∷ [] }
    ∷ []

abbrev chain : B256 → Result (Unit {0}) (List Tx)
chain block = ok txs

abbrev oracle : B256 → Option Bytes
oracle key = if bytes_eq key (1 ∷ []) then some (42 ∷ []) else none

abbrev source : DataSource
source = new_source inbox

answers-txs :
    answers celestia_prefix chain signer
      (λ c. c)
      oracle
      (([], batcher) ∷ ([], batcher) ∷ ([], batcher) ∷ [])
      source
    ≡ ok (5 ∷ 6 ∷ []) ∷ ok (42 ∷ []) ∷ err eof ∷ []
unfolding next load_batch_data pop_front push_txs push_tx push_data is_read resolve_commitment
    bytes_eq
answers-txs = refl

answers-batches_example :
    answers celestia_prefix chain signer
      (λ c. c)
      oracle
      (([], batcher) ∷ (3 ∷ [], []) ∷ [])
      (clear source)
    ≡ serve (batches celestia_prefix chain signer (λ c. c) oracle inbox batcher txs) 2
unfolding clear
answers-batches_example =
    answers-batches celestia_prefix chain signer (λ c. c) oracle source [] batcher txs
      ((3 ∷ [], []) ∷ []) refl

-- A block that ends in a generic commitment which the oracle does not know.
abbrev longer_chain : B256 → Result (Unit {0}) (List Tx)
longer_chain [] = ok txs
longer_chain (b ∷ block) = ok (txs ++ batch_tx (generic_prefix ∷ 2 ∷ []) ∷ [])

load_batch_data-withheld_example :
    ((load_batch_data eigenda_prefix longer_chain signer (λ c. c) oracle (1 ∷ []) batcher source).0
      ≡ ok tt)
    × (load_batch_data eigenda_prefix longer_chain signer (λ c. c) oracle (1 ∷ []) batcher source
        ≡ load_batch_data eigenda_prefix longer_chain signer (λ c. c) oracle [] batcher source)
unfolding bytes_eq
load_batch_data-withheld_example =
    load_batch_data-withheld eigenda_prefix longer_chain signer (λ c. c) oracle source (1 ∷ []) []
      batcher txs [] (batch_tx (generic_prefix ∷ 2 ∷ [])) generic_prefix (2 ∷ []) (inr refl) refl
      refl refl refl

abbrev writes : List (B256 × Bytes)
writes = (2 ∷ [], 20 ∷ []) ∷ (1 ∷ [], 10 ∷ []) ∷ (2 ∷ [], 21 ∷ []) ∷ []

get-delivered_example :
    (s : PreimageStore) × (from_rkyv_bytes unarchive
        (serialize_preimages archive (snapshot (set_all writes new_kv)))
      ≡ some s)
    × ((key : B256) → get s key ≡ ok_or (last_write writes key none) key_not_found)
get-delivered_example = get-delivered archive unarchive writes unarchive-archive
