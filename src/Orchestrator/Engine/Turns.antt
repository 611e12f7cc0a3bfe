-- ===== src/Orchestrator/Engine/Turns.antt =====
-- One turn of the beacon loop: how it can end, and what it has sent by then.
use open_zk.Common.{
  ℕ, ◌≡◌, refl, sym, ◌∙◌, ap, inl, inr, Option, none, some, List, [], ◌∷◌, ◌++◌, length, ltb, Text,
  if◌then◌else◌, true, false, Bool-cases,
}
use open_zk.Common.Outcome.{
  Result, ok, err, Outcome, returned, panicked, out_of_fuel, ◌>>=◌ as ◌>>=ₒ◌,
}
use open_zk.Common.Words.{Profile}
use open_zk.Core.{ProofArtifact, ProofRequest}
use open_zk.Orchestrator.Intent.{ResolvedIntent}
use open_zk.Orchestrator.Monitor.{
  ChainMonitor, ChainState, range_of_state, range_of_result, pending_range,
}
use open_zk.Orchestrator.Dispatcher.{ProofDispatcher}
use open_zk.Orchestrator.Planner.{plan_range}
use open_zk.Orchestrator.Engine.{
  EngineEvent, range_detected, aggregation_started, aggregation_completed, EngineError, monitor,
  dispatch, Run, continue, ◌>>=◌, lift, prove_ranges, aggregate, beacon_range, beacon_turn,
  raised_range,
}
use open_zk.Orchestrator.Engine.Events.{
  transcript, StoppedAt, call_rule, Proved, prove_ranges-Proved,
}
use mathlib.Core.Path.{subst}
use mathlib.Core.List.{append-nil, append_assoc}

-- The events of aggregating the proofs of `n` requests, for which one proof needs none.
abbrev pub aggregation : ℕ → ℕ → ℕ → List EngineEvent
aggregation start end n =
    if ltb 1 n then aggregation_started n ∷ aggregation_completed start end ∷ [] else []

aggregation_many :
    (start end n : ℕ)
    → ltb 1 n ≡ true
    → aggregation start end n ≡ aggregation_started n ∷ aggregation_completed start end ∷ []
aggregation_many start end n h = rw h

aggregation_one : (start end n : ℕ) → ltb 1 n ≡ false → aggregation start end n ≡ []
aggregation_one start end n h = rw h

regroup_pair {ℓ} :
    {A : Type ℓ} (xs ys : List A) (a b : A)
    → ((xs ++ ys) ++ a ∷ []) ++ b ∷ [] ≡ xs ++ (ys ++ a ∷ b ∷ [])
regroup_pair xs ys a b = append_assoc (xs ++ ys) (a ∷ []) (b ∷ []) ∙ append_assoc xs ys (a ∷ b ∷ [])

-- What the monitor answers in some world, the range that follows from it, and the plan for a range.
module _ {W : Type 0} (p : Profile) (fuel : ℕ) (intent : ResolvedIntent)
    (watch : ChainMonitor W) where
  abbrev pub Answers : ChainState → Type 0
  Answers state = (w : W) × ((watch.get_state w).0 ≡ ok state)

  abbrev pub Detected : Outcome (Option (ℕ × ℕ)) → Type 0
  Detected range = (state : ChainState) × Answers state × (range_of_state p state ≡ range)

  abbrev pub Planned : ℕ → ℕ → Outcome (List ProofRequest) → Type 0
  Planned start end plan =
      (state : ChainState) × Answers state × (plan_range p fuel intent start end state ≡ plan)

  -- A range was detected and said so, and `more` came after it.
  abbrev pub AfterRange : ℕ → ℕ → List EngineEvent → List EngineEvent → List EngineEvent → Type 0
  AfterRange start end before after more =
      Detected (returned (some (start, end)))
      × (after ≡ (before ++ range_detected start end ∷ []) ++ more)

  -- How a turn of the beacon loop ends, by the events before it and after it.
  pub data BeaconEnd (before after : List EngineEvent)
      : Outcome (Result EngineError (Unit {0})) → Type 0 where
    idle : Detected (returned none) → after ≡ before → BeaconEnd before after (returned (ok tt))
    range_fails : (m : Text) → after ≡ before → BeaconEnd before after (returned (err (monitor m)))
    range_panics : Detected panicked → after ≡ before → BeaconEnd before after panicked
    range_loops : Detected out_of_fuel → after ≡ before → BeaconEnd before after out_of_fuel
    state_fails :
        (start end : ℕ) (m : Text)
        → AfterRange start end before after []
        → BeaconEnd before after (returned (err (monitor m)))
    plan_panics :
        (start end : ℕ)
        → AfterRange start end before after []
        → Planned start end panicked
        → BeaconEnd before after panicked
    plan_loops :
        (start end : ℕ)
        → AfterRange start end before after []
        → Planned start end out_of_fuel
        → BeaconEnd before after out_of_fuel
    proof_fails :
        (start end : ℕ) (requests : List ProofRequest) (e : EngineError)
        → Detected (returned (some (start, end)))
        → Planned start end (returned requests)
        → StoppedAt requests (before ++ range_detected start end ∷ []) after e
        → BeaconEnd before after (returned (err e))
    aggregation_fails :
        (start end : ℕ) (requests : List ProofRequest) (m : Text)
        → Planned start end (returned requests)
        → ltb 1 (length requests) ≡ true
        → AfterRange start end before after
            (transcript requests ++ aggregation_started (length requests) ∷ [])
        → BeaconEnd before after (returned (err (dispatch m)))
    range_proved :
        (start end : ℕ) (requests : List ProofRequest)
        → Planned start end (returned requests)
        → AfterRange start end before after
            (transcript requests ++ aggregation start end (length requests))
        → BeaconEnd before after (returned (ok tt))

module _ {W : Type 0} (p : Profile) (fuel : ℕ) (intent : ResolvedIntent) (watch : ChainMonitor W)
    (dispatcher : ProofDispatcher W) (before : List EngineEvent) where
  abbrev Ends : Outcome (Result EngineError (Unit {0})) × Run W → Type 0
  Ends (o, r) = BeaconEnd p fuel intent watch before r.events o

  -- In a section over the range that was detected.
  module _ (start end : ℕ)
      (detected : Detected p fuel intent watch (returned (some (start, end)))) where
    abbrev ahead : List EngineEvent
    ahead = before ++ range_detected start end ∷ []

    module _ (requests : List ProofRequest)
        (planned : Planned p fuel intent watch start end (returned requests)) where
      aggregate_many :
          (proofs : List ProofArtifact) (r : Run W)
          → ltb 1 (length proofs) ≡ true
          → length proofs ≡ length requests
          → r.events ≡ ahead ++ transcript requests
          → Ends (aggregate dispatcher start end proofs r)
      unfolding aggregate
      aggregate_many proofs r many same sent =
          let n : ℕ = length proofs in
          let start_sent : List EngineEvent = r.events ++ aggregation_started n ∷ [] in
          let begun : start_sent
              ≡ ahead ++ (transcript requests ++ aggregation_started (length requests) ∷ []) =
            rw (same, sent) (append_assoc ahead _ _) in
          let finished : start_sent ++ aggregation_completed start end ∷ []
              ≡ ahead ++ (transcript requests ++ aggregation start end (length requests)) =
            rw (same, sent) (regroup_pair ahead (transcript requests) _ _)
            ∙ ap (λ (t : List EngineEvent). ahead ++ (transcript requests ++ t))
                (sym (aggregation_many start end (length requests) (rw same at many))) in
          rw many (
            call_rule dispatch (dispatcher.submit_aggregation proofs) _ Ends _
              (λ handle w _.
                call_rule dispatch (dispatcher.wait handle) _ Ends _
                  (λ proof w' _. range_proved start end requests planned (detected, finished))
                  (λ m w'.
                    aggregation_fails start end requests m planned (rw same at many)
                      (detected, begun)))
              (λ m w.
                aggregation_fails start end requests m planned (rw same at many) (detected, begun)))

      aggregate_one :
          (proofs : List ProofArtifact) (r : Run W)
          → ltb 1 (length proofs) ≡ false
          → length proofs ≡ length requests
          → r.events ≡ ahead ++ transcript requests
          → Ends (aggregate dispatcher start end proofs r)
      unfolding aggregate
      aggregate_one proofs r one same sent = rw one (
          range_proved start end requests planned (
            detected,
            sent
                ∙ ap (λ (t : List EngineEvent). ahead ++ t)
                    (sym (append-nil (transcript requests))
                      ∙ ap (λ (t : List EngineEvent). transcript requests ++ t)
                          (sym (aggregation_one start end (length requests) (rw same at one)))),
          ))

      proofs-Ends :
          (x : Outcome (Result EngineError (List ProofArtifact)) × Run W)
          → Proved requests ahead x
          → Ends (continue x.0 (aggregate dispatcher start end) x.1)
      proofs-Ends (returned (ok proofs), r) (same, sent) =
          elim (Bool-cases (ltb 1 (length proofs))) [
            | inl many ↦ aggregate_many proofs r many same sent
            | inr one ↦ aggregate_one proofs r one same sent
          ]
      proofs-Ends (returned (err e), r) h = proof_fails start end requests e detected planned h
      proofs-Ends (panicked, r) h = absurd h
      proofs-Ends (out_of_fuel, r) h = absurd h

    plan-Ends :
        (plan : Outcome (List ProofRequest)) (r : Run W)
        → Planned p fuel intent watch start end plan
        → r.events ≡ ahead
        → Ends (
            (lift plan >>= λ requests.
            prove_ranges dispatcher requests >>= λ proofs. aggregate dispatcher start end proofs)
              r)
    plan-Ends (returned requests) r planned sent =
        proofs-Ends requests planned (prove_ranges dispatcher requests r) (
          subst
            (λ (seen : List EngineEvent). Proved requests seen (prove_ranges dispatcher requests r))
            sent (prove_ranges-Proved dispatcher requests r))
    plan-Ends panicked r planned sent =
        plan_panics start end (detected, sent ∙ sym (append-nil _)) planned
    plan-Ends out_of_fuel r planned sent =
        plan_loops start end (detected, sent ∙ sym (append-nil _)) planned

    range-Ends :
        (r : Run W)
        → r.events ≡ before
        → Ends (beacon_range p fuel intent watch dispatcher (some (start, end)) r)
    unfolding beacon_range
    range-Ends r sent =
        call_rule monitor watch.get_state _ Ends _
          (λ state w e.
            plan-Ends (plan_range p fuel intent start end state) _
              (state, (r.world, ap (λ (x : Result Text ChainState × W). x.0) e), refl)
              (ap (λ (seen : List EngineEvent). seen ++ range_detected start end ∷ []) sent))
          (λ m w. state_fails start end m (detected, rw sent (sym (append-nil _))))

  range_known :
      (range : Outcome (Option (ℕ × ℕ))) (r : Run W)
      → Detected p fuel intent watch range
      → r.events ≡ before
      → Ends (
          (λ (r : Run W).
              continue
                (raised_range (range >>=ₒ λ x. returned (ok x)))
                (beacon_range p fuel intent watch dispatcher)
                r)
            r)
  range_known (returned none) r d sent = unfold beacon_range in idle d sent
  range_known (returned (some (start, end))) r d sent = range-Ends start end d r sent
  range_known panicked r d sent = range_panics d sent
  range_known out_of_fuel r d sent = range_loops d sent

  state_known :
      (x : Result Text ChainState × W) (r : Run W)
      → watch.get_state r.world ≡ x
      → r.events ≡ before
      → Ends (
          continue
            (raised_range (range_of_result p x.0))
            (beacon_range p fuel intent watch dispatcher)
            (record r { world = x.1 }))
  state_known (err m, w) r e sent = range_fails m sent
  state_known (ok state, w) r e sent =
      range_known (range_of_state p state) (record r { world = w })
        (state, (r.world, ap (λ (x : Result Text ChainState × W). x.0) e), refl) sent

-- A turn of the beacon loop ends in one of these ways. Nothing is sent if the monitor fails or has no
-- range. A range is announced, and its plan then proved request by request: if every request is, the
-- transcript of the plan follows, with the aggregation of more than one proof; if the dispatcher
-- fails on one, the events stop at its start; if it fails on the aggregation, they stop at its start.
pub beacon_turn_ends :
    {W : Type 0} (p : Profile) (fuel : ℕ) (intent : ResolvedIntent) (watch : ChainMonitor W)
    (dispatcher : ProofDispatcher W) (r : Run W)
    → let (o, r') = beacon_turn p fuel intent watch dispatcher r in
      BeaconEnd p fuel intent watch r.events r'.events o
unfolding beacon_turn pending_range
beacon_turn_ends p fuel intent watch dispatcher r =
    state_known p fuel intent watch dispatcher r.events (watch.get_state r.world) r refl refl
