-- ===== src/Guest/Aggregation/Meaning.antt =====
-- What a commitment of the aggregation guest attests.
use open_zk.Common.{
  ℕ, zero, suc, ◌≡◌, refl, sym, ap, subst, ◌∙◌, ◌↔◌, Bool, true, List, [], ◌∷◌, Text,
}
use open_zk.Common.Outcome.{
  Result, ok, err, returned, assert, >>=-eq-returned, returned-inj, assert-returned,
}
use open_zk.Core.{Bytes, StateTransitionJournal}
use open_zk.Core.Abi.{AbiCodec, journal_to_abi_bytes, journal_from_abi_bytes}
use open_zk.Guest.Aggregation.{Input, last_of, span, aggregate, decoded, read_journals, main}
use open_zk.Guest.Aggregation.Windows.{Linked, aggregate-Linked, Linked-check_windows}

module _ (codec : AbiCodec) (verify : List ℕ → Bytes → Bool) (vkey : List ℕ) where
  -- The first so many inputs are journals of verified proofs, and decode to these.
  pub data Attested : ℕ → List Bytes → List StateTransitionJournal → Type 0 where
    done : {input : List Bytes} → Attested zero input []
    more :
        {n : ℕ} {bytes : Bytes} {input : List Bytes} {journal : StateTransitionJournal}
        {journals : List StateTransitionJournal}
        → verify vkey bytes ≡ true
        → journal_from_abi_bytes codec bytes ≡ ok journal
        → Attested n input journals
        → Attested (suc n) (bytes ∷ input) (journal ∷ journals)

  decoded-returned :
      (r : Result Text StateTransitionJournal) (j : StateTransitionJournal)
      → decoded codec verify r ≡ returned j
      → r ≡ ok j
  decoded-returned (ok k) j h = cc
  decoded-returned (err e) j h = cc

  read_journals-Attested :
      (n : ℕ) (input : List Bytes) (journals : List StateTransitionJournal)
      → read_journals codec verify n vkey input ≡ returned journals
      → Attested n input journals
  unfolding read_journals
  read_journals-Attested zero input journals h =
      subst (λ t. Attested 0 input t) (returned-inj h) done
  read_journals-Attested (suc n) [] journals h = cc
  read_journals-Attested (suc n) (bytes ∷ input) journals h =
      let (_, verified, h1) = >>=-eq-returned (assert (verify vkey bytes)) _ h in
      let (j, decodes, h2) =
        >>=-eq-returned (decoded codec verify (journal_from_abi_bytes codec bytes)) _ h1 in
      let (js, reads, h3) = >>=-eq-returned (read_journals codec verify n vkey input) _ h2 in
      subst (λ t. Attested (suc n) (bytes ∷ input) t) (returned-inj h3)
        (more (assert-returned _ verified) (decoded-returned _ j decodes)
          (read_journals-Attested n input js reads))

  Attested-read_journals :
      {n : ℕ} {input : List Bytes} {journals : List StateTransitionJournal}
      → Attested n input journals
      → read_journals codec verify n vkey input ≡ returned journals
  unfolding read_journals
  Attested-read_journals done = refl
  Attested-read_journals (more verified decodes rest) =
      rw (verified, decodes, Attested-read_journals rest)

-- What is known when the guest has committed `out`.
abbrev pub Commits : AbiCodec → (List ℕ → Bytes → Bool) → Input → Bytes → Type 0
Commits codec verify input out =
    (first : StateTransitionJournal) × (rest : List StateTransitionJournal) × Attested codec verify
      input.range_program_vkey input.num_proofs input.journals (first ∷ rest)
    × Linked first rest
    × (out ≡ journal_to_abi_bytes codec (span first (last_of first rest)))

aggregate-Commits :
    (codec : AbiCodec) (verify : List ℕ → Bytes → Bool) (input : Input) (out : Bytes)
    (journals : List StateTransitionJournal) (x : StateTransitionJournal)
    → Attested codec verify input.range_program_vkey input.num_proofs input.journals journals
    → aggregate journals ≡ returned x
    → out ≡ journal_to_abi_bytes codec x
    → Commits codec verify input out
unfolding aggregate
aggregate-Commits codec verify input out [] x attested h same = cc
aggregate-Commits codec verify input out (first ∷ rest) x attested h same =
    let (linked, spans) = aggregate-Linked first rest x h in
    (first, rest, attested, linked, same ∙ ap (journal_to_abi_bytes codec) spans)

main_sound :
    (codec : AbiCodec) (verify : List ℕ → Bytes → Bool) (input : Input) (out : Bytes)
    → main codec verify input ≡ returned out
    → Commits codec verify input out
unfolding main
main_sound codec verify input out h =
    let (journals, reads, h1) =
      >>=-eq-returned
        (read_journals codec verify input.num_proofs input.range_program_vkey input.journals) _ h in
    let (x, folds, h2) = >>=-eq-returned (aggregate journals) _ h1 in
    aggregate-Commits codec verify input out journals x
      (read_journals-Attested codec verify _ _ _ journals reads) folds (sym (returned-inj h2))

main_complete :
    (codec : AbiCodec) (verify : List ℕ → Bytes → Bool) (input : Input) (out : Bytes)
    → Commits codec verify input out
    → main codec verify input ≡ returned out
unfolding main aggregate
main_complete codec verify input out (first, rest, attested, linked, same) =
    rw
      (Attested-read_journals codec verify _ attested, Linked-check_windows first rest linked, same)

-- The guest commits some bytes exactly if it is given at least one proof, every one of them
-- verifies and carries a journal, the journals are linked root to root under one configuration,
-- and the bytes are the encoding of the span from the first journal to the last.
pub main-Commits :
    (codec : AbiCodec) (verify : List ℕ → Bytes → Bool) (input : Input) (out : Bytes)
    → (main codec verify input ≡ returned out) ↔ Commits codec verify input out
main-Commits codec verify input out =
    (main_sound codec verify input out, main_complete codec verify input out)
