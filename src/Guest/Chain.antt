-- ===== src/Guest/Chain.antt =====
-- The two guests together: what an aggregated journal attests of the ranges below it, where the
-- zkVM accepts an inner proof only of what the range guest committed.
use open_zk.Common.{
  ℕ, suc, ◌≡◌, refl, sym, ap, subst, ◌∙◌, Bool, true, some, List, [], ◌∷◌, All, length,
}
use open_zk.Common.Outcome.{returned}
use open_zk.Common.Fallible.{ok-inj}
use open_zk.Core.{Bytes, B256, b256_zero, StateTransitionJournal}
use open_zk.Core.Abi.{
  AbiCodec, IsAbi, IsStateOutput, journal_output, journal_to_abi_bytes, journal_from_abi_bytes,
}
use open_zk.Core.Abi.RoundTrip.{journal_abi_round_trip}
use open_zk.Guest.Store.{PreimageStore, Oracle}
use open_zk.Guest.Pipeline.{Boot, Kona, Hints, journal_of, run}
use open_zk.Guest.Pipeline.Meaning.{Proves, oracle_of, run_commits}
use open_zk.Guest.Aggregation
use open_zk.Guest.Aggregation.{Input, last_of, span}
use open_zk.Guest.Aggregation.Windows.{Linked}
use open_zk.Guest.Aggregation.Meaning.{Attested, done, more, main-Commits}

-- Each range starts from the root that the one before it claims.
abbrev pub Chained : {C L : Type 0} → Boot C L → List (Boot C L) → Type 0
Chained a [] = Unit
Chained a (b ∷ rest) = (a.claimed_l2_output_root ≡ b.agreed_l2_output_root) × Chained b rest

abbrev pub last_boot : {C L : Type 0} → Boot C L → List (Boot C L) → Boot C L
last_boot a [] = a
last_boot a (b ∷ rest) = last_boot b rest

-- The journal of a chain of ranges, from the first to the last.
abbrev pub chain_journal : {C L : Type 0} → Boot C L → Boot C L → StateTransitionJournal
chain_journal first last = record {
  l1_head = first.l1_head;
  l2_pre_root = first.agreed_l2_output_root;
  l2_post_root = last.claimed_l2_output_root;
  l2_block_number = last.claimed_l2_block_number;
  rollup_config_hash = b256_zero;
  program_id = b256_zero;
}

module _ {Config L1Config Cursor Da Pipeline : Type 0} (hints : Hints)
    (kona : Kona Config L1Config Cursor Da Pipeline)
    (create_da_source : Oracle → B256 → Config → Da) (codec : AbiCodec)
    (verify : List ℕ → Bytes → Bool) where
  abbrev journal_at : Boot Config L1Config → StateTransitionJournal
  journal_at boot = journal_of boot boot.claimed_l2_output_root

  -- Some store of preimages proves the boot values.
  abbrev pub Proved : Boot Config L1Config → Type 0
  Proved boot = (store : PreimageStore) × Proves hints kona create_da_source store boot

  -- An accepted proof's public values were committed by a run of the range guest.
  abbrev pub IsSound : List ℕ → Type 0
  IsSound vkey =
      (bytes : Bytes)
      → verify vkey bytes ≡ true
      → (store : PreimageStore) × (run hints kona create_da_source codec store ≡ returned bytes)

  -- The boot values have the widths of their Rust types.
  abbrev pub IsSized : Type 0
  IsSized =
      (store : PreimageStore) (boot : Boot Config L1Config)
      → kona.load (oracle_of hints kona create_da_source store) ≡ some boot
      → IsStateOutput (journal_output (journal_at boot))

  -- The journals are those of proved boot values.
  data Backed : List StateTransitionJournal → List (Boot Config L1Config) → Type 0 where
    no_more : Backed [] []
    backed :
        {journal : StateTransitionJournal} {boot : Boot Config L1Config}
        {journals : List StateTransitionJournal} {boots : List (Boot Config L1Config)}
        → journal ≡ journal_at boot
        → Proved boot
        → Backed journals boots
        → Backed (journal ∷ journals) (boot ∷ boots)

  Attested-Backed :
      (laws : IsAbi codec) (sized : IsSized) (vkey : List ℕ)
      → IsSound vkey
      → {n : ℕ} {input : List Bytes} {journals : List StateTransitionJournal}
      → Attested codec verify vkey n input journals
      → (boots : List (Boot Config L1Config)) × Backed journals boots × (length boots ≡ n)
  Attested-Backed laws sized vkey sound done = ([], no_more, refl)
  Attested-Backed laws sized vkey sound (more verified decodes rest) =
      let (boots, all_backed, count) = Attested-Backed laws sized vkey sound rest in
      let (store, ran) = sound _ verified in
      let (boot, proves, encoded) = (run_commits hints kona create_da_source codec store _).0 ran in
      let (_, decoded) =
        journal_abi_round_trip codec (journal_at boot) laws (sized store boot proves.loads) in
      let same = ok-inj (sym decodes ∙ ap (journal_from_abi_bytes codec) encoded ∙ decoded) in
      (boot ∷ boots, backed same (store, proves) all_backed, ap suc count)

  Backed-Proved :
      {journals : List StateTransitionJournal} {boots : List (Boot Config L1Config)}
      → Backed journals boots
      → All Proved boots
  Backed-Proved no_more = tt
  Backed-Proved (backed same proved rest) = (proved, Backed-Proved rest)

  -- Linked journals are those of chained ranges.
  Linked-Chained :
      (j : StateTransitionJournal) (js : List StateTransitionJournal) (b : Boot Config L1Config)
      (bs : List (Boot Config L1Config))
      → Linked j js
      → j ≡ journal_at b
      → Backed js bs
      → Chained b bs × (last_of j js ≡ journal_at (last_boot b bs))
  unfolding last_of journal_of
  Linked-Chained j [] b [] linked same no_more = (tt, same)
  Linked-Chained j [] b (c ∷ cs) linked same b_backed = elim b_backed [ ]
  Linked-Chained j (k ∷ ks) b [] linked same k_backed = elim k_backed [ ]
  Linked-Chained j (k ∷ ks) b (c ∷ cs) linked same (backed same_k proved rest) =
      let (chained, last) = Linked-Chained k ks c cs linked.2 same_k rest in
      (
        (sym (ap (λ t. t.l2_post_root) same) ∙ linked.0 ∙ ap (λ t. t.l2_pre_root) same_k, chained),
        last,
      )

  span-chain_journal :
      (first last : StateTransitionJournal) (a z : Boot Config L1Config)
      → first ≡ journal_at a
      → last ≡ journal_at z
      → span first last ≡ chain_journal a z
  unfolding span journal_of
  span-chain_journal first last a z e f =
      ap (λ t. span t last) e ∙ ap (λ t. span (journal_at a) t) f

  Backed-chain :
      (j : StateTransitionJournal) (js : List StateTransitionJournal)
      (boots : List (Boot Config L1Config))
      → Linked j js
      → Backed (j ∷ js) boots
      → (first : Boot Config L1Config) × (rest : List (Boot Config L1Config)) × (boots
          ≡ first ∷ rest)
        × Chained first rest
        × (span j (last_of j js) ≡ chain_journal first (last_boot first rest))
  Backed-chain j js [] linked j_backed = elim j_backed [ ]
  Backed-chain j js (b ∷ bs) linked (backed same proved rest) =
      let (chained, last) = Linked-Chained j js b bs linked same rest in
      (b, bs, refl, chained, span-chain_journal j (last_of j js) b (last_boot b bs) same last)

  -- A chain of proved ranges, as many as there are proofs, that these bytes stand for.
  abbrev pub IsChain : Input → Bytes → Type 0
  IsChain input out =
      (first : Boot Config L1Config) × (rest : List (Boot Config L1Config)) × All Proved
        (first ∷ rest)
      × Chained first rest
      × (length (first ∷ rest) ≡ input.num_proofs)
      × (out ≡ journal_to_abi_bytes codec (chain_journal first (last_boot first rest)))

-- Where the codec keeps its laws, boot values have their widths, and proofs under the key that the
-- aggregation guest was given are accepted only of what the range guest commits: if that guest
-- commits some bytes, there are as many boot values as it was given proofs, each proved by some
-- store; each starts from the root that the one before it claims; and the bytes encode the journal
-- from the first one's agreed root, with its L1 head, to the last one's claimed root and block.
pub main-IsChain :
    {Config L1Config Cursor Da Pipeline : Type 0} (hints : Hints)
    (kona : Kona Config L1Config Cursor Da Pipeline)
    (create_da_source : Oracle → B256 → Config → Da) (codec : AbiCodec)
    (verify : List ℕ → Bytes → Bool) (input : Input) (out : Bytes)
    → IsAbi codec
    → IsSized hints kona create_da_source codec verify
    → IsSound hints kona create_da_source codec verify input.range_program_vkey
    → Aggregation.main codec verify input ≡ returned out
    → IsChain hints kona create_da_source codec verify input out
main-IsChain hints kona create_da_source codec verify input out laws sized sound committed =
    let (j, js, attested, linked, same) = (main-Commits codec verify input out).0 committed in
    let (boots, all_backed, count) =
      Attested-Backed hints kona create_da_source codec verify laws sized input.range_program_vkey
        sound attested in
    let (first, rest, parts, chained, spans) =
      Backed-chain hints kona create_da_source codec verify j js boots linked all_backed in
    (
      first,
      rest,
      subst (All (Proved hints kona create_da_source codec verify)) parts
          (Backed-Proved hints kona create_da_source codec verify all_backed),
      chained,
      sym (ap length parts) ∙ count,
      same ∙ ap (journal_to_abi_bytes codec) spans,
    )
