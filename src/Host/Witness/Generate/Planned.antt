-- ===== src/Host/Witness/Generate/Planned.antt =====
-- The witnesses of the requests that the engine plans, crates/orchestrator/src/engine.rs.
use open_zk.Common.{
  ℕ, zero, suc, ◌+◌, ◌≤◌, ◌<◌, ◌-◌, ◌≡◌, refl, ap, sym, subst, ◌∙◌, leb, Bool, true, false,
  if◌then◌else◌, some, List, [], ◌∷◌, ◌++◌, All,
}
use open_zk.Common.Outcome.{Outcome, returned, out_of_fuel, ok, >>=-eq-returned, returned-inj}
use open_zk.Common.Words.{Profile, u64_mod, add_u64}
use open_zk.Common.Maps.{Map}
use open_zk.Core.{Bytes, B256, b256_zero, ProofRequest, ProvingMode}
use open_zk.Core.Abi.{AbiCodec, boot_to_abi_bytes}
use open_zk.Orchestrator.Intent.{ResolvedIntent}
use open_zk.Orchestrator.Monitor.{ChainState}
use open_zk.Orchestrator.Planner.{request_for, range_end, plan_loop, plan_range}
use open_zk.Orchestrator.Planner.Tiling.{Tiles, plan_range-Tiles}
use open_zk.Host.Adapter.{RawWitness}
use open_zk.Host.Witness.{RpcWitnessProvider, Values, Outside}
use open_zk.Host.Witness.Generate.{boot_info_of, generate_witness}
use open_zk.Host.Witness.Generate.Steps.{Generated, generate_witness-Generated}

abbrev FromZero : ProofRequest → Type 0
FromZero r = r.l2_start_output_root ≡ b256_zero

module _ (p : Profile) (window : ℕ) (l1_head : B256) (mode : ProvingMode) (end : ℕ) where
  branch_FromZero :
      (more : Bool) (next : Outcome (List ProofRequest)) {requests : List ProofRequest}
      → ((rs : List ProofRequest) → next ≡ returned rs → All FromZero rs)
      → (if more then next else returned []) ≡ returned requests
      → All FromZero requests
  branch_FromZero true next {requests = requests} all h = all requests h
  branch_FromZero false next all h = subst (All FromZero) (returned-inj h) tt

  plan_loop-FromZero :
      (fuel cursor : ℕ) (requests : List ProofRequest)
      → plan_loop p window l1_head mode end fuel cursor ≡ returned requests
      → All FromZero requests
  unfolding plan_loop request_for
  plan_loop-FromZero zero cursor requests h =
      branch_FromZero (leb cursor end) out_of_fuel (λ rs none_left. cc) h
  plan_loop-FromZero (suc fuel) cursor requests h =
      branch_FromZero (leb cursor end) _
        (λ rs more.
          let (last, _, h1) = >>=-eq-returned (range_end p window end cursor) _ more in
          let (next, _, h2) = >>=-eq-returned (add_u64 p last 1) _ h1 in
          let (later, planned, h3) =
            >>=-eq-returned (plan_loop p window l1_head mode end fuel next) _ h2 in
          subst (All FromZero) (returned-inj h3) (refl, plan_loop-FromZero fuel next later planned))
        h

FromZero-behind :
    (front : List ProofRequest) (a b : ProofRequest) (rest : List ProofRequest)
    → All FromZero (front ++ a ∷ b ∷ rest)
    → FromZero b
FromZero-behind [] a b rest (_, (from_zero, _)) = from_zero
FromZero-behind (x ∷ front) a b rest (_, all) = FromZero-behind front a b rest all

Tiles-behind :
    (front : List ProofRequest) (a b : ProofRequest) (rest : List ProofRequest) (first last : ℕ)
    → Tiles first last (front ++ a ∷ b ∷ rest)
    → b.l2_start_block ≡ a.l2_end_block + 1
Tiles-behind [] a b rest first last (_, _, _, (next, _, _, _)) = next
Tiles-behind (x ∷ front) a b rest first last (_, _, _, tiles) =
    Tiles-behind front a b rest (x.l2_end_block + 1) last tiles

module _ {W Json : Type 0} (values : Values Json) (outside : Outside W Json) (archive : Map → Bytes)
    (codec : AbiCodec) where
  -- A planned request behind another, where the planning has room: the head that its witness agrees
  -- on is the block after the last one of the request before it, which is the first one to be proved
  -- and not its parent, and its boot information starts from the root of zeros.
  pub generate_witness-planned :
      (p : Profile) (fuel : ℕ) (intent : ResolvedIntent) (start end : ℕ) (state : ChainState)
      (front rest : List ProofRequest) (before request : ProofRequest) (self : RpcWitnessProvider)
      (w v : W) (witness : RawWitness)
      → 0 < intent.aggregation_window
      → end + intent.aggregation_window < u64_mod
      → start ≤ end + 1
      → end + 1 - start ≤ fuel
      → plan_range p fuel intent start end state ≡ returned (front ++ before ∷ request ∷ rest)
      → generate_witness values outside archive codec self request w ≡ (ok witness, v)
      → (g : Generated values outside archive codec self request w v witness)
        × (outside.get_block_by_number g.l2_url (before.l2_end_block + 1) g.before_start
            ≡ (ok (some g.start), g.behind_start))
        × (g.agreed ≡ g.start.hash)
        × (witness.boot_info
            ≡ boot_to_abi_bytes codec (record {
              l1_head = request.l1_head;
              l2_pre_root = b256_zero;
              l2_claim = g.claimed;
              l2_block_number = request.l2_end_block;
              rollup_config_hash = g.rollup_config_hash;
            }))
  unfolding plan_range boot_info_of
  generate_witness-planned p fuel intent start end state front rest before request self w v witness
        pos room le enough planned h =
      let g = generate_witness-Generated values outside archive codec self request w v witness h in
      let (requests, plan, tiles, _, _) =
        plan_range-Tiles p fuel intent start end state pos room le enough in
      let next =
        Tiles-behind front before request rest start end
          (subst (Tiles start end) (returned-inj (sym plan ∙ planned)) tiles) in
      let zero_root = FromZero-behind front before request rest (
        plan_loop-FromZero p intent.aggregation_window state.l1_head intent.proving_mode end fuel
          start (front ++ before ∷ request ∷ rest) planned) in
      (
        g,
        subst
            (λ n.
              outside.get_block_by_number g.l2_url n g.before_start
              ≡ (ok (some g.start), g.behind_start))
            next g.start_block,
        g.agreed_hash,
        g.boot_info
            ∙ ap
                (λ root. boot_to_abi_bytes codec (record {
                  l1_head = request.l1_head;
                  l2_pre_root = root;
                  l2_claim = g.claimed;
                  l2_block_number = request.l2_end_block;
                  rollup_config_hash = g.rollup_config_hash;
                }))
                zero_root,
      )
