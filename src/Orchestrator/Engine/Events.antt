-- ===== src/Orchestrator/Engine/Events.antt =====
-- What a turn of the engine sends into the event channel, on every way it can end.
use open_zk.Common.{suc, ◌≡◌, ◌⊎◌, inl, inr, refl, sym, ap, ◌∙◌, List, [], ◌∷◌, ◌++◌, length, Text}
use open_zk.Common.Outcome.{Result, ok, err, Outcome, returned, panicked, out_of_fuel}
use open_zk.Core.{ProofArtifact, ProofRequest}
use open_zk.Orchestrator.Dispatcher.{ProofDispatcher, ProofJobHandle}
use open_zk.Orchestrator.Engine.{
  EngineEvent, proof_started, proof_completed, EngineError, dispatch, Run, Step, call, raised,
  continue, pure, ◌>>=◌, prove, prove_ranges,
}
use mathlib.Core.List.{append-nil, append_assoc}

abbrev pub started : ProofRequest → EngineEvent
started r = proof_started r.l2_start_block r.l2_end_block

abbrev pub completed : ProofRequest → EngineEvent
completed r = proof_completed r.l2_start_block r.l2_end_block

-- The events of proving all of these requests.
abbrev pub transcript : List ProofRequest → List EngineEvent
transcript [] = []
transcript (r ∷ rs) = started r ∷ completed r ∷ transcript rs

module _ {W A B C : Type 0} (f : A → Step W B) (g : B → Step W C) where
  continue_assoc :
      (o : Outcome (Result EngineError A)) (r : Run W)
      → let (o', r') = continue o f r in continue o' g r' ≡ continue o (λ a. f a >>= g) r
  continue_assoc (returned (ok a)) r = refl
  continue_assoc (returned (err e)) r = refl
  continue_assoc panicked r = refl
  continue_assoc out_of_fuel r = refl

  pub bind_assoc : (m : Step W A) (r : Run W) → (m >>= f >>= g) r ≡ (m >>= λ a. f a >>= g) r
  bind_assoc m r = let (o, r') = m r in continue_assoc o r'

-- A call gives a value or an error of its kind, and changes the world alone: what holds of the rest
-- in both cases holds of the whole.
module _ {W A B : Type 0} (kind : Text → EngineError) (f : W → Result Text A × W) (k : A → Step W B)
    (Q : Outcome (Result EngineError B) × Run W → Type 0) (r : Run W)
    (on_ok : (a : A) (w : W) → f r.world ≡ (ok a, w) → Q (k a (record r { world = w })))
    (on_err : (e : Text) (w : W) → Q (returned (err (kind e)), record r { world = w })) where
  answer_rule :
      (x : Result Text A × W)
      → f r.world ≡ x
      → Q (continue (returned (raised kind x.0)) k (record r { world = x.1 }))
  answer_rule (ok a, w) e = on_ok a w e
  answer_rule (err m, w) e = on_err m w

  pub call_rule : Q ((call kind f >>= k) r)
  call_rule = answer_rule (f r.world) refl

-- The two calls by which the dispatcher proves one request, from a world to a world, and the error of
-- one of them.
module _ {W : Type 0} (dispatcher : ProofDispatcher W) (request : ProofRequest) (w : W) where
  abbrev pub Dispatched : ProofArtifact → W → Type 0
  Dispatched proof v =
      (handle : ProofJobHandle) × (u : W) × (dispatcher.submit request w ≡ (ok handle, u))
      × (dispatcher.wait handle u ≡ (ok proof, v))

  abbrev pub Refused : Text → W → Type 0
  Refused e v =
      (dispatcher.submit request w ≡ (err e, v))
      ⊎ ((handle : ProofJobHandle) × (u : W) × (dispatcher.submit request w ≡ (ok handle, u))
          × (dispatcher.wait handle u ≡ (err e, v)))

-- What holds of the rest behind a proof, and of an error, holds of the whole.
module _ {W B : Type 0} (dispatcher : ProofDispatcher W) (request : ProofRequest)
    (k : ProofArtifact → Step W B) (Q : Outcome (Result EngineError B) × Run W → Type 0) (r : Run W)
    (on_ok : (a : ProofArtifact) (w : W)
      → Dispatched dispatcher request r.world a w
      → Q (k a (record r { world = w })))
    (on_err : (e : Text) (w : W)
      → Refused dispatcher request r.world e w
      → Q (returned (err (dispatch e)), record r { world = w })) where
  wait_answer :
      (h : ProofJobHandle) (u : W) (x : Result Text ProofArtifact × W)
      → dispatcher.submit request r.world ≡ (ok h, u)
      → dispatcher.wait h u ≡ x
      → Q (continue (returned (raised dispatch x.0)) k (record r { world = x.1 }))
  wait_answer h u (ok a, w) submitted waited = on_ok a w (h, u, submitted, waited)
  wait_answer h u (err e, w) submitted waited = on_err e w (inr (h, u, submitted, waited))

  prove_answer :
      (x : Result Text ProofJobHandle × W)
      → dispatcher.submit request r.world ≡ x
      → Q (
          ◌>>=◌
            (λ r'.
              continue (returned (raised dispatch x.0)) (λ h. call dispatch (dispatcher.wait h)) r')
            k
            (record r { world = x.1 }))
  prove_answer (ok h, w) submitted = wait_answer h w (dispatcher.wait h w) submitted refl
  prove_answer (err e, w) submitted = on_err e w (inl submitted)

  pub prove_rule : Q ((prove dispatcher request >>= k) r)
  unfolding prove
  prove_rule = prove_answer (dispatcher.submit request r.world) refl

-- A loop over the requests that stopped at an error of the dispatcher: at one request, which was
-- started, with those before it done and those behind it untouched.
pub record StoppedAt (requests : List ProofRequest) (before after : List EngineEvent)
    (e : EngineError) : Type 0 where
  pub done : List ProofRequest
  pub failing : ProofRequest
  pub rest : List ProofRequest
  pub message : Text
  pub is_dispatch : e ≡ dispatch message
  pub splits : requests ≡ done ++ failing ∷ rest
  pub sent : after ≡ before ++ (transcript done ++ started failing ∷ [])

module _ {W : Type 0} where
  abbrev pub Proved :
      List ProofRequest
      → List EngineEvent
      → Outcome (Result EngineError (List ProofArtifact)) × Run W
      → Type 0
  Proved requests before (returned (ok proofs), r) =
      (length proofs ≡ length requests) × (r.events ≡ before ++ transcript requests)
  Proved requests before (returned (err e), r) = StoppedAt requests before r.events e
  Proved requests before (panicked, r) = ⊥
  Proved requests before (out_of_fuel, r) = ⊥

-- Two events and then the rest, as they are sent and as a transcript has them.
regroup {ℓ} :
    {A : Type ℓ} (before : List A) (a b : A) (rest : List A)
    → ((before ++ a ∷ []) ++ b ∷ []) ++ rest ≡ before ++ a ∷ b ∷ rest
regroup before a b rest =
    append_assoc (before ++ a ∷ []) (b ∷ []) rest ∙ append_assoc before (a ∷ []) (b ∷ rest)

module _ {W : Type 0} where
  Proved-step :
      (request : ProofRequest) (requests : List ProofRequest) (before : List EngineEvent)
      (proof : ProofArtifact) (x : Outcome (Result EngineError (List ProofArtifact)) × Run W)
      → Proved requests ((before ++ started request ∷ []) ++ completed request ∷ []) x
      → Proved (request ∷ requests) before (continue x.0 (λ proofs. pure (proof ∷ proofs)) x.1)
  Proved-step request requests before proof (returned (ok proofs), r) (same, sent) =
      (ap suc same, sent ∙ regroup before _ _ _)
  Proved-step request requests before proof (returned (err e), r) h = record {
    done = request ∷ h.done;
    failing = h.failing;
    rest = h.rest;
    message = h.message;
    is_dispatch = h.is_dispatch;
    splits = ap (λ (t : List ProofRequest). request ∷ t) h.splits;
    sent = h.sent ∙ regroup before _ _ _;
  }
  Proved-step request requests before proof (panicked, r) h = h
  Proved-step request requests before proof (out_of_fuel, r) h = h

module _ {W : Type 0} (dispatcher : ProofDispatcher W) where
  -- The loop over the requests of a plan neither panics nor loops. If it returns proofs, there is one
  -- for each request, and a start and a completion were sent for each, in order. If it fails, the
  -- error is the dispatcher's on some request: the requests before it were all started and
  -- completed, and its own start is the last event.
  pub prove_ranges-Proved :
      (requests : List ProofRequest) (r : Run W)
      → Proved requests r.events (prove_ranges dispatcher requests r)
  unfolding prove_ranges
  prove_ranges-Proved [] r = (refl, sym (append-nil r.events))
  prove_ranges-Proved (request ∷ requests) r =
      prove_rule dispatcher request _ (Proved (request ∷ requests) r.events) _
        (λ proof w _.
          Proved-step request requests r.events proof _ (prove_ranges-Proved requests _))
        (λ e w _. record {
          done = [];
          failing = request;
          rest = requests;
          message = e;
          is_dispatch = refl;
          splits = refl;
          sent = refl;
        })
