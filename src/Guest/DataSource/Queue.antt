-- ===== src/Guest/DataSource/Queue.antt =====
-- The answers of a data source (da_source.rs) to a row of calls, and the batches of a block.
use open_zk.Common.{
  ℕ, zero, suc, ◌≡◌, refl, sym, ap, ◌∙◌, Bool, true, false, ◌&&◌, ◌||◌, if◌then◌else◌, ◌==◌, Option,
  none, some, List, [], ◌∷◌, ◌++◌, length, append_assoc, append-nil,
}
use open_zk.Common.Outcome.{Result, ok, err}
use open_zk.Core.{Bytes, B256}
use open_zk.Guest.DataSource.{
  Tx, DataSource, PipelineError, provider, eof, is_address, is_read, generic_prefix,
  resolve_commitment, push_data, push_tx, push_txs, load_batch_data, pop_front, next, clear,
}

pub if_same : (b : Bool) → Path (List Bytes) (if b then [] else []) []
if_same true = refl
if_same false = refl

abbrev pub of_option : Option Bytes → List Bytes
of_option none = []
of_option (some b) = b ∷ []

-- So many answers from a queue of batches: the batches in order, and `eof` once there are no more.
abbrev pub serve : {E : Type 0} → List Bytes → ℕ → List (Result (PipelineError E) Bytes)
serve queue zero = []
serve [] (suc n) = err eof ∷ serve [] n
serve (b ∷ queue) (suc n) = ok b ∷ serve queue n

module _ {E : Type 0} (prefix : ℕ) (transactions : B256 → Result E (List Tx))
    (recover_signer : Tx → Option Bytes) (keccak_key : Bytes → B256)
    (oracle : B256 → Option Bytes) where
  -- What a batch transaction's data stand for: nothing where they are empty or where the oracle does
  -- not know the commitment.
  abbrev pub payload : Bytes → Option Bytes
  payload [] = none
  payload (b ∷ rest) =
      if b == prefix || b == generic_prefix then oracle (keccak_key rest) else some (b ∷ rest)

  abbrev pub is_batch : Bytes → Bytes → Tx → Bool
  is_batch inbox batcher tx =
      is_read prefix transactions recover_signer keccak_key oracle tx.kind
      && is_address tx.to inbox
      && is_address (recover_signer tx) batcher

  -- The batches of the transactions, in their order.
  abbrev pub batches : Bytes → Bytes → List Tx → List Bytes
  batches inbox batcher [] = []
  batches inbox batcher (tx ∷ txs) =
      (if is_batch inbox batcher tx then of_option (payload tx.input) else [])
      ++ batches inbox batcher txs

  -- The answers to a row of calls of `next`, each with its block and its batcher.
  abbrev pub answers : List (B256 × Bytes) → DataSource → List (Result (PipelineError E) Bytes)
  answers [] self = []
  answers ((block, batcher) ∷ calls) self =
      let (answer, after) =
        next prefix transactions recover_signer keccak_key oracle block batcher self in
      answer ∷ answers calls after

  push_payload :
      (b : Bool) (o : Option Bytes) (d : Bytes) (queue : List Bytes)
      → (if b then elim o [ none ↦ queue | some r ↦ queue ++ (r ∷ []) ] else queue ++ (d ∷ []))
        ≡ queue ++ of_option (if b then o else some d)
  push_payload true none d queue = sym (append-nil queue)
  push_payload true (some r) d queue = refl
  push_payload false o d queue = refl

  push_data-payload :
      (d : Bytes) (queue : List Bytes)
      → push_data prefix transactions recover_signer keccak_key oracle d queue
        ≡ queue ++ of_option (payload d)
  unfolding push_data resolve_commitment
  push_data-payload [] queue = sym (append-nil queue)
  push_data-payload (b ∷ rest) queue =
      push_payload (b == prefix || b == generic_prefix) (oracle (keccak_key rest)) (b ∷ rest) queue

  push_if :
      (a b c : Bool) (queue added : List Bytes) {pushed : List Bytes}
      → pushed ≡ queue ++ added
      → (if a then (if b then (if c then pushed else queue) else queue) else queue)
        ≡ queue ++ (if a && b && c then added else [])
  push_if false b c queue added e = sym (append-nil queue)
  push_if true false c queue added e = sym (append-nil queue)
  push_if true true false queue added e = sym (append-nil queue)
  push_if true true true queue added e = e

  pub push_tx-batches :
      (inbox batcher : Bytes) (tx : Tx) (queue : List Bytes)
      → push_tx prefix transactions recover_signer keccak_key oracle inbox batcher tx queue
        ≡ queue ++ (if is_batch inbox batcher tx then of_option (payload tx.input) else [])
  unfolding push_tx
  push_tx-batches inbox batcher tx queue =
      push_if (is_read prefix transactions recover_signer keccak_key oracle tx.kind)
        (is_address tx.to inbox) (is_address (recover_signer tx) batcher) queue
        (of_option (payload tx.input)) (push_data-payload tx.input queue)

  push_txs-batches :
      (inbox batcher : Bytes) (txs : List Tx) (queue : List Bytes)
      → push_txs prefix transactions recover_signer keccak_key oracle inbox batcher txs queue
        ≡ queue ++ batches inbox batcher txs
  unfolding push_txs
  push_txs-batches inbox batcher [] queue = sym (append-nil queue)
  push_txs-batches inbox batcher (tx ∷ txs) queue =
      push_txs-batches inbox batcher txs _
      ∙ rw (push_tx-batches inbox batcher tx queue) (append_assoc queue _ _)

  next_open :
      (inbox : Bytes) (queue : List Bytes) (block batcher : Bytes)
      → next prefix transactions recover_signer keccak_key oracle block batcher
          (record { batch_inbox_address = inbox; batch_data = queue; is_open = true })
        ≡ pop_front prefix transactions recover_signer keccak_key oracle
            (record { batch_inbox_address = inbox; batch_data = queue; is_open = true })
  unfolding next load_batch_data
  next_open inbox queue block batcher = refl

  -- An open source serves its queue, whatever block is asked for.
  answers_open :
      (inbox : Bytes) (queue : List Bytes) (calls : List (B256 × Bytes))
      → answers calls (record { batch_inbox_address = inbox; batch_data = queue; is_open = true })
        ≡ serve queue (length calls)
  unfolding next load_batch_data pop_front
  answers_open inbox queue [] = refl
  answers_open inbox [] ((block, batcher) ∷ calls) =
      ap (λ t. err eof ∷ t) (answers_open inbox [] calls)
  answers_open inbox (b ∷ queue) ((block, batcher) ∷ calls) =
      ap (λ t. ok b ∷ t) (answers_open inbox queue calls)

  next_loaded :
      (block batcher : Bytes) (self loaded : DataSource)
      → load_batch_data prefix transactions recover_signer keccak_key oracle block batcher self
        ≡ (ok tt, loaded)
      → next prefix transactions recover_signer keccak_key oracle block batcher self
        ≡ pop_front prefix transactions recover_signer keccak_key oracle loaded
  unfolding next
  next_loaded block batcher self loaded e =
      ap
        (λ (r : Result E (Unit {0}) × DataSource). elim r.0 [
          | err why ↦ (err (provider why), r.1)
          | ok _ ↦ pop_front prefix transactions recover_signer keccak_key oracle r.1
        ])
        e

  -- A source that was cleared loads the block's batches, and is open on them.
  load_batch_data-clear :
      (self : DataSource) (block : B256) (batcher : Bytes) (txs : List Tx)
      → transactions block ≡ ok txs
      → load_batch_data prefix transactions recover_signer keccak_key oracle block batcher
          (clear self)
        ≡ (
          ok tt,
          record {
            batch_inbox_address = self.batch_inbox_address;
            batch_data = batches self.batch_inbox_address batcher txs;
            is_open = true;
          },
        )
  unfolding load_batch_data clear
  load_batch_data-clear self block batcher txs known = rw (known) (
      ap
        (λ (q : List Bytes). (
          ok tt,
          record { batch_inbox_address = self.batch_inbox_address; batch_data = q; is_open = true },
        ))
        (push_txs-batches self.batch_inbox_address batcher txs []))

  next-clear :
      (self : DataSource) (block : B256) (batcher : Bytes) (txs : List Tx)
      → transactions block ≡ ok txs
      → next prefix transactions recover_signer keccak_key oracle block batcher (clear self)
        ≡ next prefix transactions recover_signer keccak_key oracle block batcher (record {
          batch_inbox_address = self.batch_inbox_address;
          batch_data = batches self.batch_inbox_address batcher txs;
          is_open = true;
        })
  next-clear self block batcher txs known =
      let loaded : DataSource = record {
        batch_inbox_address = self.batch_inbox_address;
        batch_data = batches self.batch_inbox_address batcher txs;
        is_open = true;
      } in
      next_loaded block batcher (clear self) loaded
        (load_batch_data-clear self block batcher txs known)
      ∙ sym (next_open self.batch_inbox_address _ block batcher)

-- After `clear`, where the chain provider knows the block of the first call, the answers to that
-- call and to any later ones are the block's batches, in the order of its transactions, and then
-- `eof`. A later call's own block and batcher make no difference.
pub answers-batches :
    {E : Type 0} (prefix : ℕ) (transactions : B256 → Result E (List Tx))
    (recover_signer : Tx → Option Bytes) (keccak_key : Bytes → B256) (oracle : B256 → Option Bytes)
    (self : DataSource) (block : B256) (batcher : Bytes) (txs : List Tx)
    (later : List (B256 × Bytes))
    → transactions block ≡ ok txs
    → answers prefix transactions recover_signer keccak_key oracle
        ((block, batcher) ∷ later)
        (clear self)
      ≡ serve
          (batches prefix transactions recover_signer keccak_key oracle self.batch_inbox_address
            batcher txs)
          (suc (length later))
answers-batches prefix transactions recover_signer keccak_key oracle self block batcher txs later
      known =
    ap (λ r. r.0 ∷ answers prefix transactions recover_signer keccak_key oracle later r.1)
      (next-clear prefix transactions recover_signer keccak_key oracle self block batcher txs known)
    ∙ answers_open prefix transactions recover_signer keccak_key oracle self.batch_inbox_address
        (batches prefix transactions recover_signer keccak_key oracle self.batch_inbox_address
          batcher txs)
        ((block, batcher) ∷ later)
