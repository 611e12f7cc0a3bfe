-- ===== src/Guest/Tests.antt =====
-- The guests on small inputs: two ranges of two blocks each, derived by a stand-in for kona in which
-- the output root of block `n` is the byte `n` repeated.
use open_zk.Common.{
  ℕ, zero, suc, ◌+◌, ◌%◌, ◌<◌, ◌≡◌, ◌↔◌, refl, sym, ap, subst, ◌∙◌, ◌||◌, Bool, true, false, ◌⊎◌,
  inl, inr, bytes_eq, bytes_eq→eq, bytes_eq_refl, Option, none, some, List, [], ◌∷◌, ◌++◌,
  replicate, All, arith,
}
use native.Mathlib.Nat.{mod-lt}
use open_zk.Common.Outcome.{Result, ok, err, returned}
use open_zk.Common.Maps.{lookup}
use open_zk.Common.Maybe.{some_inj}
use open_zk.Core.{Bytes, B256, IsByte, IsB256, StateTransitionJournal}
use open_zk.Core.Abi.{IsStateOutput, journal_output, journal_to_abi_bytes, journal_from_abi_bytes}
use open_zk.Core.Abi.RoundTrip.{journal_abi_round_trip}
use open_zk.Core.Abi.Slots.{slot_codec, slot_codec-IsAbi}
use open_zk.Guest.Store.{PreimageStore, Oracle, store_oracle, get, get_exact, write, OracleError}
use open_zk.Guest.Pipeline.{Boot, Kona, Hints, journal_of, run, derive, fetch_safe_head_hash}
use open_zk.Guest.Pipeline.Meaning.{Proves, run_commits}
use open_zk.Guest.Pipeline.SafeHead.{safe_head_in, fetch_safe_head_hash-store}
use open_zk.Guest.Aggregation
use open_zk.Guest.Aggregation.{Input, aggregate, span, last_of, check_windows}
use open_zk.Guest.Aggregation.Windows.{aggregate-append}
use open_zk.Guest.Aggregation.Meaning.{Commits, done, more, main-Commits}
use open_zk.Guest.Chain.{IsChain, IsSound, IsSized, main-IsChain}

abbrev root : ℕ → B256
root n = replicate 32 n

abbrev boot_at : ℕ → Boot (Unit {0}) (Unit {0})
boot_at n = record {
  l1_head = root 7;
  agreed_l2_output_root = root (n % 100);
  claimed_l2_output_root = root (n % 100 + 2);
  claimed_l2_block_number = n % 100 + 2;
  rollup_config = tt;
  l1_config = tt;
}

abbrev boot_from : Result OracleError Bytes → Option (Boot (Unit {0}) (Unit {0}))
boot_from (ok (n ∷ _)) = some (boot_at n)
boot_from (ok []) = none
boot_from (err e) = none

abbrev kona : Kona (Unit {0}) (Unit {0}) (Unit {0}) (Unit {0}) (Unit {0})
kona = record {
  caching = λ o. o;
  load = λ o. boot_from (o.get (0 ∷ []));
  header_number = λ o h. some 1;
  new_cursor = λ o c l1 head. some tt;
  new_pipeline = λ o c l1 head safe_head cursor da. some tt;
  advance_to_target = λ pipeline c block. some (root block);
}

abbrev hints : Hints
hints = record { starting_l2_output = λ agreed. []; keccak_key = λ agreed. agreed }

abbrev create_da_source : Oracle → B256 → Unit {0} → Unit {0}
create_da_source o l1 c = tt

-- The preimages for the range that starts at block `n`.
abbrev store_at : ℕ → PreimageStore
store_at n = record { entries = (0 ∷ [], n ∷ []) ∷ (root n, replicate 128 n) ∷ [] }

abbrev committed : ℕ → Bytes
committed n = journal_to_abi_bytes slot_codec (journal_of (boot_at n) (root (n % 100 + 2)))

store_10-Proves : Proves hints kona create_da_source (store_at 10) (boot_at 10)
unfolding fetch_safe_head_hash derive get get_exact write lookup bytes_eq
store_10-Proves = record {
  safe_head = root 10;
  number = 1;
  loads = refl;
  fetches = refl;
  numbered = refl;
  no_older = omega arith;
  justified = inr refl;
}

store_12-Proves : Proves hints kona create_da_source (store_at 12) (boot_at 12)
unfolding fetch_safe_head_hash derive get get_exact write lookup bytes_eq
store_12-Proves = record {
  safe_head = root 12;
  number = 1;
  loads = refl;
  fetches = refl;
  numbered = refl;
  no_older = omega arith;
  justified = inr refl;
}

run_10 : run hints kona create_da_source slot_codec (store_at 10) ≡ returned (committed 10)
run_10 =
    (run_commits hints kona create_da_source slot_codec (store_at 10) (committed 10)).1
      (boot_at 10, store_10-Proves, refl)

run_12 : run hints kona create_da_source slot_codec (store_at 12) ≡ returned (committed 12)
run_12 =
    (run_commits hints kona create_da_source slot_codec (store_at 12) (committed 12)).1
      (boot_at 12, store_12-Proves, refl)

run_commits_example :
    (run hints kona create_da_source slot_codec (store_at 10) ≡ returned (committed 10)) ↔ (
      (boot : Boot (Unit {0}) (Unit {0})) × Proves hints kona create_da_source (store_at 10) boot
      × (committed 10
          ≡ journal_to_abi_bytes slot_codec (journal_of boot boot.claimed_l2_output_root)))
run_commits_example =
    run_commits hints kona create_da_source slot_codec (store_at 10) (committed 10)

fetch_safe_head_hash-store_example :
    fetch_safe_head_hash hints (store_oracle (store_at 10)) (root 10)
    ≡ safe_head_in (lookup (store_at 10).entries (root 10))
fetch_safe_head_hash-store_example = fetch_safe_head_hash-store hints (store_at 10) (root 10)

-- The zkVM of these tests accepts proofs of these two runs.
verify : List ℕ → Bytes → Bool
verify vkey bytes = bytes_eq bytes (committed 10) || bytes_eq bytes (committed 12)

or_true : (a b : Bool) → a || b ≡ true → (a ≡ true) ⊎ (b ≡ true)
or_true true b h = inl refl
or_true false b h = inr h

verify-IsSound : IsSound hints kona create_da_source slot_codec verify []
unfolding verify
verify-IsSound bytes accepted =
    elim (or_true (bytes_eq bytes (committed 10)) (bytes_eq bytes (committed 12)) accepted) [
      | inl at_10 ↦ (store_at 10, run_10 ∙ ap returned (sym (bytes_eq→eq bytes _ at_10)))
      | inr at_12 ↦ (store_at 12, run_12 ∙ ap returned (sym (bytes_eq→eq bytes _ at_12)))
    ]

replicate-All : (k n : ℕ) → n < 256 → All IsByte (replicate k n)
replicate-All zero n h = tt
replicate-All (suc k) n h = (h, replicate-All k n h)

root-IsB256 : (n : ℕ) → n < 256 → IsB256 (root n)
root-IsB256 n h = (refl, replicate-All 32 n h)

boot_at-sized :
    (n : ℕ)
    → IsStateOutput (journal_output (journal_of (boot_at n) (boot_at n).claimed_l2_output_root))
unfolding journal_of
boot_at-sized n =
    let small = mod-lt n {m = 100} (omega arith) in
    record {
      l1_head = root-IsB256 7 (omega arith);
      l2_pre_root = root-IsB256 (n % 100) (omega arith);
      l2_post_root = root-IsB256 (n % 100 + 2) (omega arith);
      l2_block_number = omega arith;
      rollup_config_hash = root-IsB256 0 (omega arith);
      program_id = root-IsB256 0 (omega arith);
    }

boot_from-sized :
    (r : Result OracleError Bytes) (boot : Boot (Unit {0}) (Unit {0}))
    → boot_from r ≡ some boot
    → IsStateOutput (journal_output (journal_of boot boot.claimed_l2_output_root))
boot_from-sized (ok (n ∷ rest)) boot h =
    subst
      (λ (b : Boot (Unit {0}) (Unit {0})).
        IsStateOutput (journal_output (journal_of b b.claimed_l2_output_root)))
      (some_inj h) (boot_at-sized n)
boot_from-sized (ok []) boot h = cc
boot_from-sized (err e) boot h = cc

boots_are_sized : IsSized hints kona create_da_source slot_codec verify
boots_are_sized store boot loads = boot_from-sized (get store (0 ∷ [])) boot loads

abbrev input : Input
input = record {
  num_proofs = 2;
  range_program_vkey = [];
  journals = committed 10 ∷ committed 12 ∷ [];
}

abbrev aggregated : Bytes
aggregated =
    journal_to_abi_bytes slot_codec
      (span (journal_of (boot_at 10) (root 12)) (journal_of (boot_at 12) (root 14)))

or_right : (a : Bool) → a || true ≡ true
or_right true = refl
or_right false = refl

accepts_10 : verify [] (committed 10) ≡ true
unfolding verify
accepts_10 = rw (bytes_eq_refl (committed 10))

accepts_12 : verify [] (committed 12) ≡ true
unfolding verify
accepts_12 =
    ap (λ b. bytes_eq (committed 12) (committed 10) || b) (bytes_eq_refl (committed 12))
    ∙ or_right (bytes_eq (committed 12) (committed 10))

abbrev journal_at : ℕ → StateTransitionJournal
journal_at n = journal_of (boot_at n) (root (n % 100 + 2))

decodes : (n : ℕ) → journal_from_abi_bytes slot_codec (committed n) ≡ ok (journal_at n)
decodes n = (journal_abi_round_trip slot_codec (journal_at n) slot_codec-IsAbi (boot_at-sized n)).1

input-Commits : Commits slot_codec verify input aggregated
unfolding last_of journal_of
input-Commits = (
  journal_at 10,
  journal_at 12 ∷ [],
  more accepts_10 (decodes 10) (more accepts_12 (decodes 12) done),
  (refl, refl, tt),
  refl,
)

main-Commits_example :
    (Aggregation.main slot_codec verify input ≡ returned aggregated)
    ↔ Commits slot_codec verify input aggregated
main-Commits_example = main-Commits slot_codec verify input aggregated

main-IsChain_example : IsChain hints kona create_da_source slot_codec verify input aggregated
main-IsChain_example =
    main-IsChain hints kona create_da_source slot_codec verify input aggregated slot_codec-IsAbi
      boots_are_sized verify-IsSound
      ((main-Commits slot_codec verify input aggregated).1 input-Commits)

-- The journals of three ranges, aggregated as two and one.
aggregate-append_example :
    aggregate (journal_at 10 ∷ (journal_at 12 ∷ []) ++ (journal_at 14 ∷ []))
    ≡ aggregate (span (journal_at 10) (journal_at 12) ∷ journal_at 14 ∷ [])
unfolding aggregate check_windows last_of journal_of bytes_eq span
aggregate-append_example =
    aggregate-append (journal_at 10) (journal_at 14) (journal_at 12 ∷ []) []
      (span (journal_at 10) (journal_at 12)) (journal_at 14) refl refl
