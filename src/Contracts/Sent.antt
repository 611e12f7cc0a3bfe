-- ===== src/Contracts/Sent.antt =====
-- What was sent where an operation of the submitter gives a transaction's hash.
use open_zk.Common.{ℕ, ◌≡◌, refl, ap, sym, subst, ◌∙◌, ◌⊎◌, inl, inr, Option, none, some}
use open_zk.Common.Outcome.{Result, ok, err}
use open_zk.Common.Fallible.{ok-inj}
use open_zk.Common.Io.{after-eq-ok, after-result, map_err, ok_or_fail}
use open_zk.Core.{
  Bytes, B256, ProofArtifact, StateTransitionJournal, ZkvmBackend, sp1, risc_zero, auto, mock,
}
use open_zk.Core.Abi.{AbiCodec, journal_to_abi_bytes}
use open_zk.Contracts.{
  RpcProofSubmitter, contract_call, dispute_address_not_configured, Call, submit_sp1_proof,
  submit_risc0_proof, resolve, Provider, submit_call, backend_number, build_provider, transact,
  submit_proof, resolve_dispute,
}

module _ {W Pending : Type 0} (provider : Provider W Pending) where
  -- This call was sent in `w`, and its receipt has this hash.
  abbrev pub Confirmed : Call → W → B256 → W → Type 0
  Confirmed call w hash w2 =
      (pending : Pending) × (w1 : W) × (provider.send call w ≡ (ok pending, w1))
      × (provider.get_receipt pending w1 ≡ (ok hash, w2))

map_err-ok :
    {W E F A : Type 0} (f : F → E) (r : Result F A × W) {value : A} {w : W}
    → map_err f r ≡ (ok value, w)
    → r ≡ (ok value, w)
map_err-ok f (err e, v) h = cc
map_err-ok f (ok a, v) h = let same = ok-inj (ap (λ t. t.0) h) in let still = ap (λ t. t.1) h in cc

ok_or_fail-ok :
    {W E A : Type 0} (o : Option A) (e : E) (w : W) {value : A} {v : W}
    → ok_or_fail o e w ≡ (ok value, v)
    → (o ≡ some value) × (v ≡ w)
ok_or_fail-ok none e w h = cc
ok_or_fail-ok (some a) e w h = (ap some (ok-inj (ap (λ t. t.0) h)), sym (ap (λ t. t.1) h))

module _ {W Pending : Type 0} (codec : AbiCodec) (provider : Provider W Pending)
    (self : RpcProofSubmitter) where
  build_provider-ok :
      (u : Unit {0}) (w w2 : W) → build_provider codec provider self w ≡ (ok u, w2) → w2 ≡ w
  unfolding build_provider
  build_provider-ok u w w2 h =
      let (_, _, second) = after-result _ _ (provider.parse_url self.rpc_url) w h in
      sym (ap (λ t. t.1) (map_err-ok _ _ second))

  transact-ok :
      (call : Call) (w w2 : W) (hash : B256)
      → transact codec provider self call w ≡ (ok hash, w2)
      → Confirmed provider call w hash w2
  unfolding transact
  transact-ok call w w2 hash h =
      let (pending, w1, sent, received) =
        after-eq-ok _ (map_err contract_call (provider.send call w)) h in
      (pending, w1, map_err-ok contract_call _ sent, map_err-ok contract_call _ received)

  -- The function that belongs to the proof's backend was called on the oracle.
  abbrev pub Submitted : StateTransitionJournal → ProofArtifact → W → B256 → W → Type 0
  Submitted journal proof w hash w2 =
      let bytes = journal_to_abi_bytes codec journal in
      ((proof.backend ≡ sp1)
        × Confirmed provider (submit_sp1_proof self.oracle_address bytes proof.proof_bytes) w hash
            w2)
      ⊎ ((proof.backend ≡ risc_zero)
          × Confirmed provider (submit_risc0_proof self.oracle_address bytes proof.proof_bytes) w
              hash w2)

  -- The dispute contract was asked to resolve the journal's block, with the number of the backend.
  abbrev pub Resolved : StateTransitionJournal → ProofArtifact → W → B256 → W → Type 0
  Resolved journal proof w hash w2 =
      (address : Bytes) × (number : ℕ) × (self.dispute_address ≡ some address)
      × (((proof.backend ≡ sp1) × (number ≡ 0)) ⊎ ((proof.backend ≡ risc_zero) × (number ≡ 1)))
      × Confirmed provider
          (resolve address journal.l2_block_number (journal_to_abi_bytes codec journal)
            proof.proof_bytes number)
          w hash w2

submit_call-ok :
    (address : Bytes) (backend : ZkvmBackend) (values proof : Bytes) (call : Call)
    → submit_call address backend values proof ≡ ok call
    → ((backend ≡ sp1) × (call ≡ submit_sp1_proof address values proof))
      ⊎ ((backend ≡ risc_zero) × (call ≡ submit_risc0_proof address values proof))
unfolding submit_call
submit_call-ok address sp1 values proof call h = inl (refl, sym (ok-inj h))
submit_call-ok address risc_zero values proof call h = inr (refl, sym (ok-inj h))
submit_call-ok address auto values proof call h = cc
submit_call-ok address mock values proof call h = cc

backend_number-ok :
    (backend : ZkvmBackend) (number : ℕ)
    → backend_number backend ≡ ok number
    → ((backend ≡ sp1) × (number ≡ 0)) ⊎ ((backend ≡ risc_zero) × (number ≡ 1))
unfolding backend_number
backend_number-ok sp1 number h = inl (refl, sym (ok-inj h))
backend_number-ok risc_zero number h = inr (refl, sym (ok-inj h))
backend_number-ok auto number h = cc
backend_number-ok mock number h = cc

-- Where `submit_proof` gives a hash, the proof is of SP1 or of RISC Zero, and what was sent in the
-- world as it was is one call of that backend's function, on the oracle, with the journal's bytes
-- and the proof's, whose receipt has that hash.
pub submit_proof-Submitted :
    {W Pending : Type 0} (codec : AbiCodec) (provider : Provider W Pending)
    (self : RpcProofSubmitter) (journal : StateTransitionJournal) (proof : ProofArtifact) (w w2 : W)
    (hash : B256)
    → submit_proof codec provider self journal proof w ≡ (ok hash, w2)
    → Submitted codec provider self journal proof w hash w2
unfolding submit_proof
submit_proof-Submitted codec provider self journal proof w w2 hash h =
    let bytes = journal_to_abi_bytes codec journal in
    let (u, v, built, h1) = after-eq-ok _ (build_provider codec provider self w) h in
    let (call, v1, called, h2) =
      after-eq-ok _ (submit_call self.oracle_address proof.backend bytes proof.proof_bytes, v) h1 in
    let still = sym (ap (λ t. t.1) called) ∙ build_provider-ok codec provider self u w v built in
    let sent =
      subst (λ t. Confirmed provider call t hash w2) still
        (transact-ok codec provider self call v1 w2 hash h2) in
    elim (submit_call-ok self.oracle_address proof.backend bytes proof.proof_bytes call
      (ap (λ t. t.0) called)) [
        | inl (e, c) ↦ inl (e, subst (λ t. Confirmed provider t w hash w2) c sent)
        | inr (e, c) ↦ inr (e, subst (λ t. Confirmed provider t w hash w2) c sent)
      ]

-- Where `resolve_dispute` gives a hash, a dispute contract is configured, the proof is of SP1 or of
-- RISC Zero, and what was sent in the world as it was is one call that asks this contract to resolve
-- the journal's block, with the journal's bytes, the proof's, and 0 or 1 for the backend; its receipt
-- has that hash.
pub resolve_dispute-Resolved :
    {W Pending : Type 0} (codec : AbiCodec) (provider : Provider W Pending)
    (self : RpcProofSubmitter) (journal : StateTransitionJournal) (proof : ProofArtifact) (w w2 : W)
    (hash : B256)
    → resolve_dispute codec provider self journal proof w ≡ (ok hash, w2)
    → Resolved codec provider self journal proof w hash w2
unfolding resolve_dispute
resolve_dispute-Resolved codec provider self journal proof w w2 hash h =
    let (address, v0, configured, h0) =
      after-eq-ok _ (ok_or_fail self.dispute_address dispute_address_not_configured w) h in
    let (u, v, built, h1) = after-eq-ok _ (build_provider codec provider self v0) h0 in
    let (number, v1, numbered, h2) = after-eq-ok _ (backend_number proof.backend, v) h1 in
    let (known, same) =
      ok_or_fail-ok self.dispute_address dispute_address_not_configured w configured in
    let still =
      sym (ap (λ t. t.1) numbered) ∙ build_provider-ok codec provider self u v0 v built ∙ same in
    (
      address,
      number,
      known,
      backend_number-ok proof.backend number (ap (λ t. t.0) numbered),
      subst
          (λ t.
            Confirmed provider
              (resolve address journal.l2_block_number (journal_to_abi_bytes codec journal)
                proof.proof_bytes number)
              t hash w2)
          still (transact-ok codec provider self _ v1 w2 hash h2),
    )
