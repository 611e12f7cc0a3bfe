-- ===== src/Lib.antt =====
-- Verification of open-zk, a framework that proves state transitions of OP Stack rollups in a zkVM.
--
-- The program: an orchestrator on the host watches the chains, cuts the blocks that are to be proved
-- into ranges, and has a prover run the range guest on each; the aggregation guest makes one proof of
-- many. The host collects the preimages that a range needs and hands them to the guest. An SDK and a
-- command-line tool turn a user's configuration into parameters of the orchestrator.
--
-- The files, by the part of the program that they model:
--   Core          crates/core/src/types: the data that the crates exchange, and the ABI forms of the
--                 journal and the boot information. The codec of alloy_sol_types is a parameter with
--                 two laws; Core/Abi/Slots has a concrete codec that keeps them.
--   Orchestrator  crates/orchestrator/src: Intent (intent.rs), Monitor (monitor.rs, mock_monitor.rs),
--                 RpcMonitor (rpc_monitor.rs),
--                 Dispatcher (dispatcher.rs), Planner (plan_range of engine.rs) and Engine (the
--                 two loops of engine.rs). Engine/Events, Turns, Disputes and Runs are about what it
--                 sends, and Engine/Ends about how it stops.
--   Guest         crates/guest/src and guests: Pipeline (pipeline.rs), Store (oracle.rs), DataSource
--                 (da_source.rs of range-celestia and range-eigenda), Aggregation
--                 (guests/aggregation/src/main.rs), and Chain, where the two guests meet.
--   Host          crates/host/src: Adapter, KvStore and Witness (witness/adapter.rs, kv_store.rs, and
--                 rpc.rs with mock.rs); Prover (prover/mock.rs, risc0.rs and sp1.rs); Pricing (the
--                 percentiles of pricing/boundless.rs) with Pricing/Fixed, Boundless, Succinct and
--                 TokenPrice for the files of these names.
--   Contracts     crates/contracts/src: client.rs and rpc_submitter.rs.
--   Sdk           crates/sdk/src/config.rs.
--   Cli           crates/cli/src: Config and Files (config.rs, commands/init.rs), and for the files
--                 of commands Estimate (estimate.rs), Prove (prove.rs), Serve (serve.rs), Status
--                 (status.rs), Witness (witness_helper.rs) and FastTrack (fast_track.rs); Zkvms has
--                 the choice of a prover that prove and estimate make.
--   Common        shared types: outcomes, results, u64 arithmetic, tests, lists, maps and text.
--
-- Conventions. Byte strings and hashes are lists of numbers. A panic, and a loop that was not
-- finished, are values of `Outcome`. An operation on u64 takes the build profile, since a debug build
-- panics where a release build wraps. What other code answers (RPC nodes, provers, kona, rkyv, the
-- zkVM) is a parameter: a record of functions, over a world that each call may change where it is
-- asynchronous. The engine's event channel is the list of the events sent, oldest first.
--
-- Fuel. `plan_range` takes a number of rounds; a round for each block of the range is enough where
-- the window is positive and the end is a window below 2 ^ 64, and no number is enough in the two
-- cases of Planner/Divergence. The engine's loops do not end in the program either: `forever` takes
-- the number of turns that are looked at. A decimal number takes a round for each digit.
--
-- Not modelled: the parsing of arguments and most of the printing of the command-line tool, the
-- tasks and the signal of `open-zk serve`, the guests' entry points and the contracts in Solidity.
-- JSON, TOML and rkyv are left to their libraries. Floating-point numbers are a parameter with the
-- operations that the code uses; Host/Pricing/Whole has whole numbers that keep the laws of its order.
pub mod Common
pub mod Core
pub mod Orchestrator
pub mod Guest
pub mod Sdk
pub mod Cli
pub mod Host
pub mod Contracts
