-- ===== src/Cli/CommandTests.antt =====
-- A default configuration's provider, an estimate in mock mode, and the output of a deployment.
use open_zk.Common.{
  ℕ, ◌≡◌, refl, ◌++◌, true, false, Option, none, some, [], ◌∷◌, All, length, replicate, drop, ◌==◌,
  if◌then◌else◌, bytes_eq, Text, codes, arith,
}
use open_zk.Common.Outcome.{ok, err, returned}
use open_zk.Common.Words.{release, add_u64}
use open_zk.Core.{Bytes, ProofArtifact, sp1, risc_zero, sentinel, groth16}
use open_zk.Orchestrator.Intent
use open_zk.Orchestrator.Intent.{ResolvedIntent}
use open_zk.Sdk
use open_zk.Cli.Config.{CliConfig, to_sdk_config, is_mock_mode}
use open_zk.Cli.Files.{ConfigFiles, default_config, from_file}
use open_zk.Cli.Prove.{load_intent, prove_range, prove_command}
use open_zk.Cli.Prove.Built.{ProvedBy, prove_command-ProvedBy}
use open_zk.Cli.Zkvms.{run_prover, run_with}
use open_zk.Host.Prover.RiscZero.{
  prove_risc_zero, build_env, artifact, image_id_to_bytes, new_program,
}
use open_zk.Cli.Zkvms.{Zkvms}
use open_zk.Cli.Estimate.{num_ranges}
use open_zk.Cli.Estimate.Command.{estimate_command}
use open_zk.Cli.Estimate.Command.Mocked.{refused, estimate_command-refused}
use open_zk.Cli.Serve.{choose_monitor, engine_config, serve_engine}
use open_zk.Cli.Serve.Silent.{serve_engine_silent}
use open_zk.Orchestrator.Monitor.{mock_monitor, default_state}
use open_zk.Cli.Halt.{Halt, error}
use open_zk.Common.Io.{Io}
use open_zk.Host.Adapter.{RawWitness}
use open_zk.Cli.Estimate.Provider.{Markets, PricedConfig, resolve_pricing}
use open_zk.Cli.Estimate.Provider.Auto.{Chosen, resolve_pricing-Chosen}
use open_zk.Cli.FastTrack.{
  extract_address, contains, find, find_from, starts_with, zero_x, is_key, without_cr,
}
use open_zk.Cli.FastTrack.Labelled.{IsLine, unlines, IsLabelled, extract_address-IsLabelled}
use open_zk.Host.Pricing.Whole.{whole}
use open_zk.Host.Pricing.Succinct.{auction}

-- No environment variable is set, and no service answers.
abbrev markets : Markets (Unit {0}) (Unit {0}) (Unit {0}) (Unit {0}) ℕ
markets = record {
  double = whole;
  indexer = record {
    client_built = ok tt;
    get_text = λ url w. (err (codes "offline"), w);
    parse_response = λ text. err (codes "no JSON");
  };
  network = record {
    env_var = λ name w. none;
    local_signer = λ key. ok tt;
    new_client = λ signer. tt;
    get_filtered_proof_requests = λ client limit w. (ok (auction []), w);
  };
  service = record {
    get_json = λ url w. (err (codes "offline"), w);
    get_field = λ j key. none;
    as_f64 = λ j. none;
  };
}

abbrev priced_config : PricedConfig ℕ
priced_config = record { config = default_config; eth_usd_price = none; prove_usd_price = none }

resolve_pricing-Chosen_example :
    Chosen markets true priced_config tt sp1
      (resolve_pricing markets true priced_config none sp1 tt)
unfolding bytes_eq
resolve_pricing-Chosen_example =
    resolve_pricing-Chosen markets priced_config tt true none sp1 refl refl refl refl

-- The default configuration with another backend.
abbrev risc_zero_config : CliConfig
risc_zero_config = record default_config {
  proving = record default_config.proving { backend = codes "risc0" };
}

abbrev config_files : ConfigFiles (Unit {0})
config_files = record {
  exists = λ path w. true;
  read_to_string = λ path w. (ok [], w);
  write = λ path contents w. (ok tt, w);
  from_toml = λ content. ok risc_zero_config;
  to_toml = λ config. [];
}

-- The CLI without a zkVM.
abbrev zkvms : Zkvms (Unit {0}) Bytes Bytes Bytes Bytes Bytes Bytes
zkvms = record {
  has_sp1 = false;
  has_risc_zero = false;
  sp1_sdk = record {
    run = λ elf stdin w. (ok (stdin, 1), w);
    setup = λ elf w. (ok elf, w);
    prove_compressed = λ key stdin w. (ok stdin, w);
    prove_groth16 = λ key stdin w. (ok stdin, w);
    public_values = λ proof. proof;
    serialize = ok;
    deserialize = ok;
    key_bytes = λ key. key;
    check = λ proof key. ok tt;
  };
  risc_zero_sdk = record {
    write = ok;
    build = ok;
    prove_with_opts = λ env elf opts w. (ok (record { receipt = env; total_cycles = 1 }), w);
    prove = λ env elf w. (ok (record { receipt = env; total_cycles = 1 }), w);
    journal_bytes = λ receipt. receipt;
    serialize = ok;
    deserialize = ok;
    verify = λ receipt id. ok tt;
  };
  stdin_with = λ bytes. bytes;
  sp1_elf = [];
  risc_zero_elf = [];
  risc_zero_id = [];
}

abbrev intent : ResolvedIntent
intent = record {
  proof_mode = sentinel;
  backend = risc_zero;
  proving_mode = groth16;
  aggregation_window = 100;
}

intent_loaded :
    load_intent config_files (codes "open-zk.toml") tt ≡ (ok (risc_zero_config, intent), tt)
unfolding load_intent from_file to_sdk_config Sdk.resolve Intent.resolve bytes_eq
intent_loaded = refl

mock_set : is_mock_mode (some (codes "mock")) risc_zero_config ≡ true
unfolding is_mock_mode bytes_eq
mock_set = refl

-- The CLI with RISC Zero, whose receipts are the preimages, and the artifact that it prints.
abbrev with_risc_zero : Zkvms (Unit {0}) Bytes Bytes Bytes Bytes Bytes Bytes
with_risc_zero = record zkvms { has_risc_zero = true }

abbrev artifact_printed : ProofArtifact
artifact_printed = record {
  backend = risc_zero;
  mode = groth16;
  proof_bytes = 4 ∷ 2 ∷ [];
  public_values = 4 ∷ 2 ∷ [];
  program_id = image_id_to_bytes [];
  cycle_count = some 1;
}

abbrev generate : CliConfig → ℕ → ℕ → Io (Unit {0}) Halt RawWitness
generate config start_block end_block w =
    (ok (record { boot_info = []; oracle_data = 4 ∷ 2 ∷ []; blob_data = [] }), w)

range_proved :
    prove_command true with_risc_zero config_files
      (λ w. none)
      generate
      (codes "open-zk.toml")
      100
      219
      tt
    ≡ (ok artifact_printed, tt)
unfolding prove_command load_intent from_file to_sdk_config Sdk.resolve Intent.resolve bytes_eq
    is_mock_mode prove_range run_prover run_with prove_risc_zero build_env artifact new_program
range_proved = refl

prove_command-ProvedBy_example :
    (config : CliConfig) × (intent : ResolvedIntent) × (u : Unit {0}) × (load_intent config_files
        (codes "open-zk.toml")
        tt
      ≡ (ok (config, intent), u))
    × ProvedBy true with_risc_zero config_files
        (λ w. none)
        generate
        config
        intent
        u
        artifact_printed
prove_command-ProvedBy_example =
    prove_command-ProvedBy true with_risc_zero config_files (λ w. none) generate
      (codes "open-zk.toml") 100 219 tt tt artifact_printed range_proved

two_ranges : num_ranges release intent 100 219 ≡ returned 2
unfolding num_ranges add_u64
two_ranges = refl

estimate_command-refused_example :
    (u : Unit {0}) × (estimate_command release false markets zkvms config_files
        (λ w. some (codes "mock"))
        (λ config start end w. (err (error []), w))
        (λ config. (none, none))
        (codes "open-zk.toml")
        none
        100
        219
        tt
      ≡ (err refused, u))
unfolding bytes_eq
estimate_command-refused_example =
    estimate_command-refused release false markets zkvms config_files (λ w. some (codes "mock"))
      (λ config start end w. (err (error []), w)) (λ config. (none, none)) (codes "open-zk.toml")
      none 100 219 2 risc_zero_config intent tt tt intent_loaded refl refl mock_set two_ranges refl
      refl refl

-- The clock stands at 5.
no_oracle :
    choose_monitor ok (λ w. 5) false none tt
    ≡ (ok (mock_monitor {W = Unit {0}} (default_state 5)), tt)
unfolding choose_monitor
no_oracle = refl

serve_engine_silent_example :
    (serve_engine release 10
      (λ t (w : Unit {0}). w)
      3
      (engine_config intent 12)
      (mock_monitor (default_state 5))
      (record { world = tt; events = [] })).1.events
    ≡ []
serve_engine_silent_example =
    serve_engine_silent release 10 (λ t w. w) 3 intent 12 ok (λ w. 5) false none tt tt
      (mock_monitor (default_state 5)) (record { world = tt; events = [] }) no_oracle

abbrev label : Text
label = codes "  OpenZkL2OutputOracle:     "

-- An address is forty digits behind its prefix.
abbrev address : Text
address = zero_x ++ replicate 40 97

abbrev parse_address : Text → Option Bytes
parse_address text = if length text == 42 then some (drop 2 text) else none

abbrev oracle_line : Text
oracle_line = label ++ (address ++ [])

abbrev oracle : Text
oracle = codes "OpenZkL2OutputOracle"

printed_lines :
    All IsLine (codes "Script ran successfully." ∷ oracle_line ∷ codes "Gas used: 0xabc" ∷ [])
unfolding without_cr
printed_lines = ground arith

labelled : IsLabelled parse_address oracle label address [] (replicate 40 97)
unfolding contains find find_from starts_with
labelled = record { named = refl; first_0x = refl; size = refl; boundary = refl; valid = refl }

no_name : contains oracle (codes "Script ran successfully.") ≡ false
unfolding contains find find_from starts_with
no_name = refl

extract_address-IsLabelled_example :
    extract_address parse_address
      (unlines (codes "Script ran successfully." ∷ oracle_line ∷ codes "Gas used: 0xabc" ∷ []))
      oracle
    ≡ returned (some (replicate 40 97))
extract_address-IsLabelled_example =
    extract_address-IsLabelled parse_address oracle (codes "Script ran successfully." ∷ [])
      (codes "Gas used: 0xabc" ∷ []) label address [] (replicate 40 97) printed_lines (no_name, tt)
      labelled

key_accepted : is_key (codes "0x" ++ replicate 64 102) ≡ true
unfolding is_key
key_accepted = refl

short_key : is_key (codes "0x") ≡ false
unfolding is_key
short_key = refl
