-- ===== src/Guest/Aggregation.antt =====
-- guests/aggregation/src/main.rs: many range proofs become one. A panic aborts the guest, and then
-- there is no proof; what is committed is what the proof attests.
pub mod Windows
pub mod Meaning
use open_zk.Common.{
  ℕ, zero, suc, Bool, true, false, Option, none, some, List, [], ◌∷◌, ◌++◌, Text, bytes_eq,
}
use open_zk.Common.Outcome.{Result, ok, err, Outcome, returned, panicked, assert, ◌>>=◌, ◌>>◌}
use open_zk.Core.{Bytes, StateTransitionJournal}
use open_zk.Core.Abi.{AbiCodec, journal_to_abi_bytes, journal_from_abi_bytes}

-- What the guest reads: the number of proofs, the verification key (eight words), and one journal
-- for each read of the loop. Reading past the end panics.
pub record Input : Type 0 where
  pub num_proofs : ℕ
  pub range_program_vkey : List ℕ
  pub journals : List Bytes

-- `journals.windows(2)` and its two assertions.
unfoldable pub check_windows : List StateTransitionJournal → Outcome (Unit {0})
check_windows [] = returned tt
check_windows (a ∷ []) = returned tt
check_windows (a ∷ b ∷ rest) = do
  assert (bytes_eq a.l2_post_root b.l2_pre_root)
  assert (bytes_eq a.rollup_config_hash b.rollup_config_hash)
  check_windows (b ∷ rest)

-- `journals[journals.len() - 1]`, of a journal and those behind it.
unfoldable pub last_of :
    StateTransitionJournal → List StateTransitionJournal → StateTransitionJournal
last_of j [] = j
last_of j (k ∷ ks) = last_of k ks

unfoldable pub span : StateTransitionJournal → StateTransitionJournal → StateTransitionJournal
span first last = record {
  l1_head = first.l1_head;
  l2_pre_root = first.l2_pre_root;
  l2_post_root = last.l2_post_root;
  l2_block_number = last.l2_block_number;
  rollup_config_hash = first.rollup_config_hash;
  program_id = first.program_id;
}

-- From the collected journals to the aggregated one: the `assert!`s and the record.
unfoldable pub aggregate : List StateTransitionJournal → Outcome StateTransitionJournal
unfolding check_windows last_of span
aggregate [] = panicked
aggregate (first ∷ rest) = do
  check_windows (first ∷ rest)
  returned (span first (last_of first rest))

-- `verify_inner_proof` panics where `verify` is false: whether an inner proof with this key and these
-- public values is at hand is the zkVM's to say.
module _ (codec : AbiCodec) (verify : List ℕ → Bytes → Bool) where
  -- `.expect("invalid journal encoding")`
  abbrev pub decoded : Result Text StateTransitionJournal → Outcome StateTransitionJournal
  decoded (ok j) = returned j
  decoded (err e) = panicked

  -- `for _ in 0..num_proofs`
  unfoldable pub read_journals : ℕ → List ℕ → List Bytes → Outcome (List StateTransitionJournal)
  read_journals zero vkey input = returned []
  read_journals (suc n) vkey [] = panicked
  read_journals (suc n) vkey (bytes ∷ input) = do
    assert (verify vkey bytes)
    journal ← decoded (journal_from_abi_bytes codec bytes)
    journals ← read_journals n vkey input
    returned (journal ∷ journals)

  -- The bytes that `main` commits.
  unfoldable pub main : Input → Outcome Bytes
  unfolding read_journals aggregate
  main input = do
    journals ← read_journals input.num_proofs input.range_program_vkey input.journals
    aggregated ← aggregate journals
    returned (journal_to_abi_bytes codec aggregated)
