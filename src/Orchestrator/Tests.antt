-- ===== src/Orchestrator/Tests.antt =====
-- The planner and the engine on small inputs, with the mock monitor and the mock dispatcher.
use open_zk.Common.{
  ◌+◌, ◌-◌, ◌≡◌, refl, some, List, [], ◌∷◌, All, length, if◌then◌else◌, replicate, arith,
}
use open_zk.Common.Outcome.{ok, returned, out_of_fuel}
use open_zk.Common.Words.{debug, release, add_u64, sub_u64}
use open_zk.Core.{B256, ProofRequest, beacon, maximum, groth16, auto, sp1}
use open_zk.Orchestrator.Intent.{ResolvedIntent, default_allowed_backends, resolve}
use open_zk.Orchestrator.Monitor.{
  ChainState, ChainMonitor, mock_monitor, pending_range, range_of_state,
}
use open_zk.Orchestrator.RpcMonitor.{
  Nodes, RpcChainMonitor, new_monitor, with_dispute_address, get_state, active_dispute,
}
use open_zk.Orchestrator.RpcMonitor.Answers.{
  uint64_word, bool_word, get_state-answers, active_dispute-answers,
}
use open_zk.Common.{bytes_eq, ◌==◌, none}
use open_zk.Orchestrator.Dispatcher.{mock_dispatcher}
use open_zk.Orchestrator.Planner.{request_for, range_end, plan_range}
use open_zk.Orchestrator.Planner.Tiling.{Tiles, Fits, div_ceil, plan_range-Tiles}
use open_zk.Orchestrator.Planner.Divergence.{plan_range_zero_window, plan_range_max_end}
use open_zk.Orchestrator.Engine.{
  EngineConfig, range_detected, proof_started, proof_completed, aggregation_started,
  aggregation_completed, Run, prove, prove_ranges, aggregate, beacon_turn, sentinel_turn, run,
}
use open_zk.Orchestrator.Engine.Events.{Proved, prove_ranges-Proved}
use open_zk.Orchestrator.Engine.Turns.{BeaconEnd, beacon_turn_ends}
use open_zk.Orchestrator.Engine.Disputes.{SentinelEnd, sentinel_turn_ends}
use open_zk.Orchestrator.Engine.Runs.{Extends, run_never_submits}

abbrev root : B256
root = replicate 32 9

abbrev state : ChainState
state = record {
  l1_head = root;
  l1_block_number = 500;
  l2_proven_block = 100;
  l2_safe_block = 125;
  timestamp = 0;
}

-- A beacon intent with windows of ten blocks.
abbrev intent : ResolvedIntent
intent = record {
  proof_mode = beacon;
  backend = sp1;
  proving_mode = groth16;
  aggregation_window = 10;
}

intent-resolved : resolve auto default_allowed_backends 1800 maximum ≡ intent
unfolding resolve
intent-resolved = refl

abbrev requests : List ProofRequest
requests =
    request_for root groth16 101 110
    ∷ request_for root groth16 111 120
    ∷ request_for root groth16 121 125
    ∷ []

planned : plan_range debug 25 intent 101 125 state ≡ returned requests
unfolding plan_range range_end add_u64 sub_u64
planned = refl

plan_range-Tiles_example :
    (planned_requests : List ProofRequest) × (plan_range debug 25 intent 101 125 state
      ≡ returned planned_requests)
    × Tiles 101 125 planned_requests
    × All (Fits 10 root groth16) planned_requests
    × (length planned_requests ≡ div_ceil (125 + 1 - 101) 10)
plan_range-Tiles_example =
    plan_range-Tiles debug 25 intent 101 125 state (omega arith) (omega arith) (omega arith)
      (omega arith)

plan_range_zero_window_example :
    plan_range release 1000 (record intent { aggregation_window = 0 }) 101 125 state ≡ out_of_fuel
plan_range_zero_window_example =
    plan_range_zero_window release 1000 (record intent { aggregation_window = 0 }) 101 125 state
      refl (omega arith) (omega arith) (omega arith)

plan_range_max_end_example :
    plan_range release 1000 intent 101 18446744073709551615 state ≡ out_of_fuel
plan_range_max_end_example =
    plan_range_max_end 1000 intent 101 18446744073709551615 state (omega arith) (omega arith)

-- A monitor that reports a dispute, and a world that has nothing to say.
abbrev disputed : ChainMonitor (Unit {0})
disputed = record {
  get_state = λ w. (ok state, w);
  active_dispute = λ w. (some (record { start_block = 101; end_block = 125 }), w);
}

abbrev start : Run (Unit {0})
start = record { world = tt; events = [] }

sent :
    (beacon_turn debug 25 intent (mock_monitor state) mock_dispatcher start).1.events
    ≡ range_detected 101 125
      ∷ proof_started 101 110
      ∷ proof_completed 101 110
      ∷ proof_started 111 120
      ∷ proof_completed 111 120
      ∷ proof_started 121 125
      ∷ proof_completed 121 125
      ∷ aggregation_started 3
      ∷ aggregation_completed 101 125
      ∷ []
unfolding beacon_turn pending_range range_of_state mock_monitor mock_dispatcher plan_range range_end
    add_u64 sub_u64 prove_ranges prove aggregate request_for
sent = refl

prove_ranges-Proved_example : Proved requests [] (prove_ranges mock_dispatcher requests start)
prove_ranges-Proved_example = prove_ranges-Proved mock_dispatcher requests start

beacon_turn_ends_example :
    let (o, after) = beacon_turn debug 25 intent (mock_monitor state) mock_dispatcher start in
    BeaconEnd {W = Unit {0}} debug 25 intent (mock_monitor state) [] after.events o
beacon_turn_ends_example =
    beacon_turn_ends debug 25 intent (mock_monitor state) mock_dispatcher start

sentinel_turn_ends_example :
    let (o, after) = sentinel_turn debug 25 intent disputed mock_dispatcher start in
    SentinelEnd debug 25 intent disputed mock_dispatcher [] after.events o
sentinel_turn_ends_example = sentinel_turn_ends debug 25 intent disputed mock_dispatcher start

abbrev config : EngineConfig
config = record { intent = intent; poll_interval = 12; max_concurrent_proofs = 4 }

run_never_submits_example :
    Extends []
      (run debug 25 config (mock_monitor state) mock_dispatcher (λ _ w. w) 2 start).1.events
run_never_submits_example =
    run_never_submits debug 25 config (mock_monitor state) mock_dispatcher (λ _ w. w) 2 start

-- Nodes that answer the same on every call: the oracle with block 100, the dispute contract with 1.
abbrev nodes : Nodes (Unit {0})
nodes = record {
  finalized = λ w. (ok (some (root, 500)), w);
  safe = λ w. (ok (some 125), w);
  call = λ address data_bytes w.
      (ok (if bytes_eq address (1 ∷ []) then uint64_word 100 else bool_word 1), w);
  now = λ w. 0;
  latest_block_number_call = [];
  is_disputed_call = λ block. block ∷ [];
}

abbrev rpc : RpcChainMonitor
rpc = with_dispute_address (2 ∷ []) (new_monitor (1 ∷ []))

get_state-answers_example : get_state nodes rpc tt ≡ (ok state, tt)
unfolding bytes_eq
get_state-answers_example =
    get_state-answers nodes rpc tt tt tt tt root 500 125 100 refl refl refl (omega arith)

active_dispute-answers_example :
    active_dispute nodes rpc tt
    ≡ ((if 1 == 1 then some (record { start_block = 100; end_block = 100 }) else none), tt)
unfolding bytes_eq
active_dispute-answers_example =
    active_dispute-answers nodes rpc tt tt tt (2 ∷ []) 100 1 refl refl refl (omega arith)
