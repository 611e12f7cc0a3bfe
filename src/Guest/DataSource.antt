-- ===== src/Guest/DataSource.antt =====
-- guests/range-celestia/src/da_source.rs and guests/range-eigenda/src/da_source.rs: the batches of an
-- L1 block, for the derivation pipeline. The two files have the same code, for another prefix byte.
pub mod Queue
pub mod Withheld
use open_zk.Common.{
  ℕ, Bool, true, false, ◌||◌, if◌then◌else◌, ◌==◌, bytes_eq, Option, none, some, List, [], ◌∷◌,
  ◌++◌,
}
use open_zk.Common.Outcome.{Result, ok, err}
use open_zk.Core.{Bytes, B256}

-- The kinds of `TxEnvelope` that the loop matches, and all the others.
pub data TxKind : Type 0 where
  legacy eip2930 eip1559 other : TxKind

pub record Tx : Type 0 where
  pub kind : TxKind
  pub to : Option Bytes
  pub input : Bytes
  pub signature : Bytes

abbrev pub celestia_prefix : ℕ
celestia_prefix = 206

abbrev pub eigenda_prefix : ℕ
eigenda_prefix = 237

abbrev pub generic_prefix : ℕ
generic_prefix = 0

pub record DataSource : Type 0 where
  pub batch_inbox_address : Bytes
  pub batch_data : List Bytes
  pub is_open : Bool

-- `new`
abbrev pub new_source : Bytes → DataSource
new_source inbox = record { batch_inbox_address = inbox; batch_data = []; is_open = false }

pub data PipelineError (E : Type 0) : Type 0 where
  provider : E → PipelineError E
  eof : PipelineError E

abbrev pub is_address : Option Bytes → Bytes → Bool
is_address none address = false
is_address (some a) address = bytes_eq a address

-- The chain provider, the recovery of a signer, the hash with the key made of it, and the oracle.
module _ {E : Type 0} (prefix : ℕ) (transactions : B256 → Result E (List Tx))
    (recover_signer : Tx → Option Bytes) (keccak_key : Bytes → B256)
    (oracle : B256 → Option Bytes) where
  unfoldable pub resolve_commitment : Bytes → Option Bytes
  resolve_commitment commitment = oracle (keccak_key commitment)

  -- The body of the loop from `match data[0]`.
  unfoldable pub push_data : Bytes → List Bytes → List Bytes
  unfolding resolve_commitment
  push_data [] queue = queue
  push_data (b ∷ commitment) queue =
      if b == prefix || b == generic_prefix
      then elim (resolve_commitment commitment) [
        | none ↦ queue
        | some resolved ↦ queue ++ (resolved ∷ [])
      ]
      else queue ++ ((b ∷ commitment) ∷ [])

  -- `match tx`: is the transaction of a kind that is read?
  unfoldable pub is_read : TxKind → Bool
  is_read legacy = true
  is_read eip2930 = true
  is_read eip1559 = true
  is_read other = false

  -- The body of the loop.
  unfoldable pub push_tx : Bytes → Bytes → Tx → List Bytes → List Bytes
  unfolding push_data is_read
  push_tx inbox batcher tx queue =
      if is_read tx.kind
      then (if is_address tx.to inbox
          then (if is_address (recover_signer tx) batcher then push_data tx.input queue else queue)
          else queue)
      else queue

  -- `for tx in txs.iter()`
  unfoldable pub push_txs : Bytes → Bytes → List Tx → List Bytes → List Bytes
  unfolding push_tx
  push_txs inbox batcher [] queue = queue
  push_txs inbox batcher (tx ∷ txs) queue =
      push_txs inbox batcher txs (push_tx inbox batcher tx queue)

  unfoldable pub load_batch_data : B256 → Bytes → DataSource → Result E (Unit {0}) × DataSource
  unfolding push_txs
  load_batch_data block batcher self =
      if self.is_open then (ok tt, self) else elim (transactions block) [
        | err e ↦ (err e, self)
        | ok txs ↦ (
          ok tt,
          record self {
            batch_data = push_txs self.batch_inbox_address batcher txs self.batch_data;
            is_open = true;
          },
        )
      ]

  -- `batch_data.pop_front().ok_or(Eof)`
  unfoldable pub pop_front : DataSource → Result (PipelineError E) Bytes × DataSource
  pop_front self = elim self.batch_data [
    | [] ↦ (err eof, self)
    | batch ∷ rest ↦ (ok batch, record self { batch_data = rest })
  ]

  unfoldable pub next : B256 → Bytes → DataSource → Result (PipelineError E) Bytes × DataSource
  unfolding load_batch_data pop_front
  next block batcher self =
      let (outcome, loaded) = load_batch_data block batcher self in
      elim outcome [ err e ↦ (err (provider e), loaded) | ok _ ↦ pop_front loaded ]

unfoldable pub clear : DataSource → DataSource
clear self = record self { batch_data = []; is_open = false }

-- The two data sources: the same code, each with its own prefix.
module _ {E : Type 0} (transactions : B256 → Result E (List Tx))
    (recover_signer : Tx → Option Bytes) (keccak_key : Bytes → B256)
    (oracle : B256 → Option Bytes) where
  unfoldable pub celestia_next :
      B256 → Bytes → DataSource → Result (PipelineError E) Bytes × DataSource
  unfolding next
  celestia_next = next celestia_prefix transactions recover_signer keccak_key oracle

  unfoldable pub eigenda_next :
      B256 → Bytes → DataSource → Result (PipelineError E) Bytes × DataSource
  unfolding next
  eigenda_next = next eigenda_prefix transactions recover_signer keccak_key oracle
