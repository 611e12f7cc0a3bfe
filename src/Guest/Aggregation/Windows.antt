-- ===== src/Guest/Aggregation/Windows.antt =====
-- The assertions of guests/aggregation/src/main.rs on neighbouring journals, and aggregation by parts.
use open_zk.Common.{
  ◌≡◌, refl, sym, ◌∙◌, List, [], ◌∷◌, ◌++◌, bytes_eq, bytes_eq→eq, eq→bytes_eq, arith,
}
use open_zk.Common.Outcome.{returned, assert, ◌>>◌, >>=-eq-returned}
use open_zk.Core.{StateTransitionJournal}
use open_zk.Guest.Aggregation.{check_windows, last_of, span, aggregate}

-- Each journal starts at the root at which the one before it ends, under the same configuration.
abbrev pub Linked : StateTransitionJournal → List StateTransitionJournal → Type 0
Linked a [] = Unit
Linked a (b ∷ rest) =
    (a.l2_post_root ≡ b.l2_pre_root) × (a.rollup_config_hash ≡ b.rollup_config_hash) × Linked b rest

pub check_windows-Linked :
    (a : StateTransitionJournal) (rest : List StateTransitionJournal)
    → check_windows (a ∷ rest) ≡ returned tt
    → Linked a rest
unfolding check_windows
check_windows-Linked a [] h = tt
check_windows-Linked a (b ∷ rest) h = ground (
  arith,
  bytes_eq→eq a.l2_post_root b.l2_pre_root,
  bytes_eq→eq a.rollup_config_hash b.rollup_config_hash,
  check_windows-Linked b rest,
)

pub Linked-check_windows :
    (a : StateTransitionJournal) (rest : List StateTransitionJournal)
    → Linked a rest
    → check_windows (a ∷ rest) ≡ returned tt
unfolding check_windows
Linked-check_windows a [] h = refl
Linked-check_windows a (b ∷ rest) h =
    rw (eq→bytes_eq _ _ h.0, eq→bytes_eq _ _ h.1) (Linked-check_windows b rest h.2)

-- Along linked journals the configuration is one.
pub Linked-config :
    (a : StateTransitionJournal) (rest : List StateTransitionJournal)
    → Linked a rest
    → (last_of a rest).rollup_config_hash ≡ a.rollup_config_hash
unfolding last_of
Linked-config a [] h = refl
Linked-config a (b ∷ rest) h = Linked-config b rest h.2 ∙ sym h.1

-- Behind linked journals, only the seam to further ones is left to check.
check_windows-append :
    (a b : StateTransitionJournal) (front back : List StateTransitionJournal)
    → Linked a front
    → check_windows (a ∷ front ++ b ∷ back) ≡ (
        assert (bytes_eq (last_of a front).l2_post_root b.l2_pre_root)
        >> (assert (bytes_eq (last_of a front).rollup_config_hash b.rollup_config_hash)
            >> check_windows (b ∷ back)))
unfolding check_windows last_of
check_windows-append a b [] back h = refl
check_windows-append a b (c ∷ front) back h =
    rw (eq→bytes_eq _ _ h.0, eq→bytes_eq _ _ h.1) (check_windows-append c b front back h.2)

last_of-append :
    (a b : StateTransitionJournal) (front back : List StateTransitionJournal)
    → last_of a (front ++ b ∷ back) ≡ last_of b back
unfolding last_of
last_of-append a b [] back = refl
last_of-append a b (c ∷ front) back = last_of-append c b front back

-- Aggregation succeeds exactly on linked journals, and gives their span.
pub aggregate-Linked :
    (a : StateTransitionJournal) (rest : List StateTransitionJournal) (x : StateTransitionJournal)
    → aggregate (a ∷ rest) ≡ returned x
    → Linked a rest × (x ≡ span a (last_of a rest))
unfolding aggregate
aggregate-Linked a rest x h =
    let (_, checked, same) =
      >>=-eq-returned (check_windows (a ∷ rest)) (λ _. returned (span a (last_of a rest))) h in
    (check_windows-Linked a rest checked, cc)

-- Aggregating in two parts, and then the two results, is aggregating all the journals at once,
-- whether or not the parts fit together.
pub aggregate-append :
    (a b : StateTransitionJournal) (front back : List StateTransitionJournal)
    (x y : StateTransitionJournal)
    → aggregate (a ∷ front) ≡ returned x
    → aggregate (b ∷ back) ≡ returned y
    → aggregate (a ∷ front ++ b ∷ back) ≡ aggregate (x ∷ y ∷ [])
unfolding aggregate
aggregate-append a b front back x y hx hy =
    let (fa, ex) = aggregate-Linked a front x hx in
    let (fb, ey) = aggregate-Linked b back y hy in
    rw (check_windows-append a b front back fa, last_of-append, ex, ey)
      (rw (Linked-config a front fa, Linked-check_windows b back fb))
