-- ===== src/Guest/Pipeline/Meaning.antt =====
-- What a commitment of the range guest attests.
use open_zk.Common.{
  ℕ, ◌≤◌, ◌≡◌, sym, ap, ◌∙◌, ◌↔◌, ◌⊎◌, inl, inr, Bool-cases, leb, leb→le, le→leb, bytes_eq,
  bytes_eq→eq, eq→bytes_eq, bytes_eq_refl, Option, none, some,
}
use open_zk.Common.Outcome.{
  Result, ok, err, returned, assert, >>=-eq-returned, returned-inj, assert-returned, if_returned,
}
use open_zk.Core.{Bytes, B256, StateTransitionJournal}
use open_zk.Core.Abi.{AbiCodec, journal_to_abi_bytes}
use open_zk.Guest.Store.{PreimageStore, OracleError, Oracle, store_oracle}
use open_zk.Guest.Pipeline.{
  Boot, Kona, Hints, expect, expect_ok, fetch_safe_head_hash, journal_of, derive, prove_claim,
  run_pipeline, run,
}

expect-returned {ℓ} : {A : Type ℓ} (o : Option A) {a : A} → expect o ≡ returned a → o ≡ some a
expect-returned none h = cc
expect-returned (some b) h = ap some (returned-inj h)

expect_ok-returned : (r : Result OracleError B256) {a : B256} → expect_ok r ≡ returned a → r ≡ ok a
expect_ok-returned (err e) h = cc
expect_ok-returned (ok b) h = ap ok (returned-inj h)

module _ {Config L1Config Cursor Da Pipeline : Type 0} (hints : Hints)
    (kona : Kona Config L1Config Cursor Da Pipeline)
    (create_da_source : Oracle → B256 → Config → Da) where
  abbrev pub oracle_of : PreimageStore → Oracle
  oracle_of store = kona.caching (store_oracle store)

  -- The claim is the agreed root, or the derivation up to the claimed block ends in it.
  abbrev pub Justified : Oracle → Boot Config L1Config → B256 → Type 0
  Justified oracle boot safe_head =
      (boot.agreed_l2_output_root ≡ boot.claimed_l2_output_root)
      ⊎ (derive hints kona create_da_source oracle boot safe_head
          ≡ returned boot.claimed_l2_output_root)

  -- A store that loads as `boot`, whose claim is no older than the safe head and is justified.
  pub record Proves (store : PreimageStore) (boot : Boot Config L1Config) : Type 0 where
    pub safe_head : B256
    pub number : ℕ
    pub loads : kona.load (oracle_of store) ≡ some boot
    pub fetches :
        fetch_safe_head_hash hints (oracle_of store) boot.agreed_l2_output_root ≡ ok safe_head
    pub numbered : kona.header_number (oracle_of store) safe_head ≡ some number
    pub no_older : number ≤ boot.claimed_l2_block_number
    pub justified : Justified (oracle_of store) boot safe_head

  prove_claim-Justified :
      (oracle : Oracle) (boot : Boot Config L1Config) (safe_head : B256)
      (journal : StateTransitionJournal)
      → prove_claim hints kona create_da_source oracle boot safe_head ≡ returned journal
      → Justified oracle boot safe_head × (journal ≡ journal_of boot boot.claimed_l2_output_root)
  unfolding prove_claim
  prove_claim-Justified oracle boot safe_head journal h =
      let same = bytes_eq boot.agreed_l2_output_root boot.claimed_l2_output_root in
      elim (if_returned same _ _ h) [
        | inl (agreed, out) ↦ (inl (bytes_eq→eq _ _ agreed), sym (returned-inj out))
        | inr (_, out) ↦
            let (root, derived, h1) =
              >>=-eq-returned (derive hints kona create_da_source oracle boot safe_head) _ out in
            let (_, checked, h2) =
              >>=-eq-returned (assert (bytes_eq root boot.claimed_l2_output_root)) _ h1 in
            let e = bytes_eq→eq root _ (assert-returned _ checked) in
            (inr (derived ∙ ap returned e), sym (returned-inj h2) ∙ ap (journal_of boot) e)
      ]

  Justified-prove_claim :
      (oracle : Oracle) (boot : Boot Config L1Config) (safe_head : B256)
      → Justified oracle boot safe_head
      → prove_claim hints kona create_da_source oracle boot safe_head
        ≡ returned (journal_of boot boot.claimed_l2_output_root)
  unfolding prove_claim
  Justified-prove_claim oracle boot safe_head (inl same) = rw (eq→bytes_eq _ _ same)
  Justified-prove_claim oracle boot safe_head (inr derived) =
      elim (Bool-cases (bytes_eq boot.agreed_l2_output_root boot.claimed_l2_output_root)) [
        | inl agreed ↦ rw (agreed)
        | inr differ ↦ rw (differ, derived, bytes_eq_refl boot.claimed_l2_output_root)
      ]

  run-Proves :
      (codec : AbiCodec) (store : PreimageStore) (out : Bytes)
      → run hints kona create_da_source codec store ≡ returned out
      → (boot : Boot Config L1Config) × Proves store boot
        × (out ≡ journal_to_abi_bytes codec (journal_of boot boot.claimed_l2_output_root))
  unfolding run run_pipeline
  run-Proves codec store out h =
      let oracle = oracle_of store in
      let (journal, ran, h1) =
        >>=-eq-returned (run_pipeline hints kona create_da_source store) _ h in
      let (boot, loaded, h2) = >>=-eq-returned (expect (kona.load oracle)) _ ran in
      let (safe_head, fetched, h3) =
        >>=-eq-returned (expect_ok (fetch_safe_head_hash hints oracle boot.agreed_l2_output_root)) _
          h2 in
      let (number, numbered, h4) =
        >>=-eq-returned (expect (kona.header_number oracle safe_head)) _ h3 in
      let (_, checked, h5) =
        >>=-eq-returned (assert (leb number boot.claimed_l2_block_number)) _ h4 in
      let (justified, same) = prove_claim-Justified oracle boot safe_head journal h5 in
      (
        boot,
        record {
          safe_head = safe_head;
          number = number;
          loads = expect-returned _ loaded;
          fetches = expect_ok-returned _ fetched;
          numbered = expect-returned _ numbered;
          no_older = leb→le _ _ (assert-returned _ checked);
          justified = justified;
        },
        sym (returned-inj h1) ∙ ap (journal_to_abi_bytes codec) same,
      )

  Proves-run_pipeline :
      (store : PreimageStore) (boot : Boot Config L1Config)
      → Proves store boot
      → run_pipeline hints kona create_da_source store
        ≡ returned (journal_of boot boot.claimed_l2_output_root)
  unfolding run_pipeline
  Proves-run_pipeline store boot p =
      rw (p.loads, p.fetches, p.numbered, le→leb p.number boot.claimed_l2_block_number p.no_older)
        (Justified-prove_claim (oracle_of store) boot p.safe_head p.justified)

  Proves-run :
      (codec : AbiCodec) (store : PreimageStore) (out : Bytes)
      → (boot : Boot Config L1Config) × Proves store boot
        × (out ≡ journal_to_abi_bytes codec (journal_of boot boot.claimed_l2_output_root))
      → run hints kona create_da_source codec store ≡ returned out
  unfolding run
  Proves-run codec store out (boot, p, same) = rw (Proves-run_pipeline store boot p, same)

-- The range guest commits some bytes exactly if its store loads as boot values that it proves, and
-- the bytes are the encoding of the journal of these values, whose post root is the claimed root,
-- whose block is the claimed one, and whose configuration hash and program are zero. It proves boot
-- values if their agreed root leads to a safe head that is no later than the claimed block, and the
-- claimed root is the agreed one or is where the derivation up to the claimed block ends.
pub run_commits :
    {Config L1Config Cursor Da Pipeline : Type 0} (hints : Hints)
    (kona : Kona Config L1Config Cursor Da Pipeline)
    (create_da_source : Oracle → B256 → Config → Da) (codec : AbiCodec) (store : PreimageStore)
    (out : Bytes)
    → (run hints kona create_da_source codec store ≡ returned out) ↔ (
        (boot : Boot Config L1Config) × Proves hints kona create_da_source store boot
        × (out ≡ journal_to_abi_bytes codec (journal_of boot boot.claimed_l2_output_root)))
run_commits hints kona create_da_source codec store out = (
  run-Proves hints kona create_da_source codec store out,
  Proves-run hints kona create_da_source codec store out,
)
