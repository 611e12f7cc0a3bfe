-- ===== src/Guest/DataSource/Withheld.antt =====
-- Commitments in a data source (da_source.rs) whose preimage the oracle does not know.
use open_zk.Common.{
  ℕ, ◌≡◌, ◌⊎◌, inl, inr, Bool-cases, refl, sym, ap, ◌∙◌, Bool, true, false, ◌||◌, if◌then◌else◌,
  ◌==◌, ==_refl, Option, none, List, [], ◌∷◌, ◌++◌, append-nil,
}
use open_zk.Common.Outcome.{Result, ok}
use open_zk.Core.{Bytes, B256}
use open_zk.Guest.DataSource.Queue.{if_same, payload, is_batch, push_tx-batches}
use open_zk.Guest.DataSource.{Tx, DataSource, generic_prefix, push_tx, push_txs, load_batch_data}

or_true : (b : Bool) → (b || true) ≡ true
or_true true = refl
or_true false = refl

module _ {E : Type 0} (prefix : ℕ) (transactions : B256 → Result E (List Tx))
    (recover_signer : Tx → Option Bytes) (keccak_key : Bytes → B256)
    (oracle : B256 → Option Bytes) where
  nothing_known :
      (b : ℕ) (commitment : Bytes)
      → (b ≡ prefix) ⊎ (b ≡ generic_prefix)
      → oracle (keccak_key commitment) ≡ none
      → payload prefix transactions recover_signer keccak_key oracle (b ∷ commitment) ≡ none
  nothing_known b commitment (inl same) withheld = rw (same, ==_refl prefix, withheld)
  nothing_known b commitment (inr same) withheld =
      rw (same, ==_refl generic_prefix, or_true (generic_prefix == prefix), withheld)

  push_tx-withheld :
      (inbox batcher : Bytes) (tx : Tx) (queue : List Bytes)
      → payload prefix transactions recover_signer keccak_key oracle tx.input ≡ none
      → push_tx prefix transactions recover_signer keccak_key oracle inbox batcher tx queue ≡ queue
  push_tx-withheld inbox batcher tx queue nothing =
      push_tx-batches prefix transactions recover_signer keccak_key oracle inbox batcher tx queue
      ∙ rw
          (
            nothing,
            if_same
                (is_batch prefix transactions recover_signer keccak_key oracle inbox batcher tx),
          )
          (append-nil queue)

  push_txs-withheld :
      (inbox batcher : Bytes) (front back : List Tx) (tx : Tx) (queue : List Bytes)
      → payload prefix transactions recover_signer keccak_key oracle tx.input ≡ none
      → push_txs prefix transactions recover_signer keccak_key oracle inbox batcher
          (front ++ tx ∷ back)
          queue
        ≡ push_txs prefix transactions recover_signer keccak_key oracle inbox batcher
            (front ++ back)
            queue
  unfolding push_txs
  push_txs-withheld inbox batcher [] back tx queue nothing =
      ap (λ q. push_txs prefix transactions recover_signer keccak_key oracle inbox batcher back q)
        (push_tx-withheld inbox batcher tx queue nothing)
  push_txs-withheld inbox batcher (t ∷ front) back tx queue nothing =
      push_txs-withheld inbox batcher front back tx _ nothing

  -- A source that is open does not load, and one that is not adds what the transactions push.
  load_batch_data-known :
      (block : B256) (batcher : Bytes) (self : DataSource) (txs : List Tx)
      → transactions block ≡ ok txs
      → load_batch_data prefix transactions recover_signer keccak_key oracle block batcher self ≡ (
        ok tt,
        if self.is_open then self else record self {
          batch_data =
              push_txs prefix transactions recover_signer keccak_key oracle self.batch_inbox_address
                batcher txs self.batch_data;
          is_open = true;
        },
      )
  unfolding load_batch_data
  load_batch_data-known block batcher self txs known = elim (Bool-cases self.is_open) [
    | inl opened ↦ rw opened refl
    | inr shut ↦ rw (shut, known) refl
  ]

-- A transaction that carries a commitment of either prefix, whose preimage the oracle does not know,
-- is dropped without an error: a block with it is loaded as the same block without it, in any state of
-- the source.
pub load_batch_data-withheld :
    {E : Type 0} (prefix : ℕ) (transactions : B256 → Result E (List Tx))
    (recover_signer : Tx → Option Bytes) (keccak_key : Bytes → B256) (oracle : B256 → Option Bytes)
    (self : DataSource) (block without : B256) (batcher : Bytes) (front back : List Tx) (tx : Tx)
    (b : ℕ) (commitment : Bytes)
    → (b ≡ prefix) ⊎ (b ≡ generic_prefix)
    → tx.input ≡ b ∷ commitment
    → oracle (keccak_key commitment) ≡ none
    → transactions block ≡ ok (front ++ tx ∷ back)
    → transactions without ≡ ok (front ++ back)
    → ((load_batch_data prefix transactions recover_signer keccak_key oracle block batcher self).0
        ≡ ok tt)
      × (load_batch_data prefix transactions recover_signer keccak_key oracle block batcher self
          ≡ load_batch_data prefix transactions recover_signer keccak_key oracle without batcher
              self)
load_batch_data-withheld prefix transactions recover_signer keccak_key oracle self block without
      batcher front back tx b commitment either carried withheld known known_without =
    let nothing : payload prefix transactions recover_signer keccak_key oracle tx.input ≡ none =
      rw carried (
        nothing_known prefix transactions recover_signer keccak_key oracle b commitment either
          withheld) in
    let loaded =
      load_batch_data-known prefix transactions recover_signer keccak_key oracle block batcher self
        (front ++ tx ∷ back) known in
    (
      ap (λ (r : Result _ (Unit {0}) × DataSource). r.0) loaded,
      loaded
          ∙ rw
              (push_txs-withheld prefix transactions recover_signer keccak_key oracle
                self.batch_inbox_address batcher front back tx self.batch_data nothing)
              refl
          ∙ sym (
              load_batch_data-known prefix transactions recover_signer keccak_key oracle without
                batcher self (front ++ back) known_without),
    )
