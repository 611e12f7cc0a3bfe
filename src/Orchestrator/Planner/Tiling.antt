-- ===== src/Orchestrator/Planner/Tiling.antt =====
-- How the requests of `plan_range` lie in the range that it is given.
use open_zk.Common.{
  ℕ, zero, suc, ◌+◌, ◌-◌, ◌/◌, ◌≤◌, ◌<◌, ◌≡◌, refl, List, [], ◌∷◌, min, All, length, arith, le→leb,
}
use open_zk.Common.Outcome.{returned}
use open_zk.Common.Words.{Profile, u64_mod, add_u64-returned, sub_u64-returned}
use open_zk.Core.{B256, ProofRequest, ProvingMode}
use open_zk.Orchestrator.Intent.{ResolvedIntent}
use open_zk.Orchestrator.Monitor.{ChainState}
use open_zk.Orchestrator.Planner.{request_for, range_end, plan_loop, plan_range}
use native.Mathlib.Nat.{div-eq-sub-div, div-eq_of_lt}
use native.Mathlib.Decide.{dec_le}

-- From block `first` up to block `last`, with no gap and no overlap.
abbrev pub Tiles : ℕ → ℕ → List ProofRequest → Type 0
Tiles first last [] = first ≡ last + 1
Tiles first last (r ∷ rs) =
    (r.l2_start_block ≡ first)
    × (first ≤ r.l2_end_block)
    × (r.l2_end_block ≤ last)
    × Tiles (r.l2_end_block + 1) last rs

-- What each request takes from the configuration and the chain.
pub record Fits (window : ℕ) (l1_head : B256) (mode : ProvingMode) (r : ProofRequest) : Type 0 where
  pub short : r.l2_end_block < r.l2_start_block + window
  pub anchored : r.l1_head ≡ l1_head
  pub in_mode : r.mode ≡ mode

-- Where nothing overflows, a round ends its request at the window's or at the range's last block.
pub range_end-returned :
    (p : Profile) (window end cursor : ℕ)
    → 0 < window
    → end + window < u64_mod
    → cursor ≤ end
    → range_end p window end cursor ≡ returned (min (cursor + window - 1) end)
unfolding range_end
range_end-returned p window end cursor pos room le =
    rw (add_u64-returned p cursor window (omega arith))
      (rw (sub_u64-returned p (cursor + window) 1 (omega arith)))

-- The number of windows that `blocks` blocks take.
abbrev pub div_ceil : ℕ → ℕ → ℕ
div_ceil blocks window = (blocks + window - 1) / window

div_ceil-zero : (window : ℕ) → 0 < window → div_ceil 0 window ≡ 0
div_ceil-zero window pos = div-eq_of_lt (omega arith)

-- Taking one window, or all that is left, takes one off the count.
div_ceil_step :
    (blocks window : ℕ)
    → 0 < window
    → 0 < blocks
    → div_ceil blocks window ≡ suc (div_ceil (blocks - window) window)
div_ceil_step blocks window pos some_left = elim (dec_le window blocks) [
  | yes full ↦
      let e : blocks - window + window - 1 ≡ blocks + window - 1 - window = omega arith in
      rw (e, div-eq-sub-div {m = window} {n = blocks + window - 1} pos (omega arith)) (omega arith)
  | no part ↦
      let e : blocks - window ≡ 0 = omega arith in
      rw (e, div_ceil-zero window pos)
        (rw (div-eq-sub-div {m = window} {n = blocks + window - 1} pos (omega arith)) (
          omega
            (arith, div-eq_of_lt {n = blocks + window - 1 - window} {m = window} (omega arith))))
]

module _ (p : Profile) (window : ℕ) (l1_head : B256) (mode : ProvingMode) (end : ℕ)
    (pos : 0 < window) (room : end + window < u64_mod) where
  abbrev Plans : ℕ → ℕ → Type 0
  Plans fuel cursor =
      (requests : List ProofRequest) × (plan_loop p window l1_head mode end fuel cursor
        ≡ returned requests)
      × Tiles cursor end requests
      × All (Fits window l1_head mode) requests
      × (length requests ≡ div_ceil (end + 1 - cursor) window)

  none_left : (cursor : ℕ) → cursor ≡ end + 1 → 0 ≡ div_ceil (end + 1 - cursor) window
  none_left cursor e =
      let z : end + 1 - cursor ≡ 0 = omega arith in rw (z, div_ceil-zero window pos)

  plan_loop_done : (fuel cursor : ℕ) → cursor ≡ end + 1 → Plans fuel cursor
  unfolding plan_loop
  plan_loop_done zero cursor e = ([], ground arith, e, tt, none_left cursor e)
  plan_loop_done (suc fuel) cursor e = ([], ground arith, e, tt, none_left cursor e)

  plan_loop_round :
      (fuel cursor last : ℕ)
      → cursor ≤ end
      → last ≡ min (cursor + window - 1) end
      → Plans fuel (last + 1)
      → Plans (suc fuel) cursor
  unfolding plan_loop request_for
  plan_loop_round fuel cursor last le e (requests, plan, tiles, fits, count) = (
    request_for l1_head mode cursor last ∷ requests,
    rw (le→leb cursor end le, range_end-returned p window end cursor pos room le, ← e)
        (rw (add_u64-returned p last 1 (omega arith), plan)),
    (refl, omega arith, omega arith, tiles),
    (record { short = omega arith; anchored = refl; in_mode = refl }, fits),
    let left : end + 1 - (last + 1) ≡ end + 1 - cursor - window = omega arith in
        rw (div_ceil_step (end + 1 - cursor) window pos (omega arith), ← left) (omega arith),
  )

  plan_loop_total :
      (fuel cursor : ℕ) → cursor ≤ end + 1 → end + 1 - cursor ≤ fuel → Plans fuel cursor
  plan_loop_total zero cursor le enough = plan_loop_done zero cursor (omega arith)
  plan_loop_total (suc fuel) cursor le enough = elim (dec_le cursor end) [
    | yes more ↦
        let last : ℕ = min (cursor + window - 1) end in
        plan_loop_round fuel cursor last more refl
          (plan_loop_total fuel (last + 1) (omega arith) (omega arith))
    | no done ↦ plan_loop_done (suc fuel) cursor (omega arith)
  ]

-- Where `window` is positive and the range ends at least a window below 2 ^ 64, `plan_range` returns
-- within a round for each block, in either build. Its requests tile the range exactly; each spans at
-- most the window, and carries the state's L1 head and the configured mode; and there are as many as
-- the windows that the blocks of the range take, rounded up.
pub plan_range-Tiles :
    (p : Profile) (fuel : ℕ) (intent : ResolvedIntent) (start end : ℕ) (state : ChainState)
    → 0 < intent.aggregation_window
    → end + intent.aggregation_window < u64_mod
    → start ≤ end + 1
    → end + 1 - start ≤ fuel
    → (requests : List ProofRequest) × (plan_range p fuel intent start end state
        ≡ returned requests)
      × Tiles start end requests
      × All (Fits intent.aggregation_window state.l1_head intent.proving_mode) requests
      × (length requests ≡ div_ceil (end + 1 - start) intent.aggregation_window)
unfolding plan_range
plan_range-Tiles p fuel intent start end state pos room le enough =
    plan_loop_total p intent.aggregation_window state.l1_head intent.proving_mode end pos room fuel
      start le enough
