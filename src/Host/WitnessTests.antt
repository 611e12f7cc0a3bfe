-- ===== src/Host/WitnessTests.antt =====
-- A witness for the second of two planned requests, from nodes that know every block.
use open_zk.Common.{
  ℕ, ◌+◌, ◌≡◌, refl, Bool, true, false, if◌then◌else◌, bytes_eq, Option, none, some, List, [], take,
  drop, ◌∷◌, replicate, Text, codes, arith,
}
use open_zk.Common.Outcome.{ok, err, returned}
use open_zk.Common.Maybe.{ok_or}
use open_zk.Common.Maps.{lookup, insert}
use open_zk.Common.Archive.{archive, unarchive, unarchive-archive}
use open_zk.Core.{B256, b256_zero, ProofRequest, beacon, groth16, sp1}
use open_zk.Core.Abi.{boot_to_abi_bytes}
use open_zk.Core.Abi.Slots.{slot_codec}
use open_zk.Guest.Store.{PreimageStore, key_not_found, from_rkyv_bytes, get, store_oracle}
use open_zk.Guest.Store.Delivery.{last_write}
use open_zk.Guest.Pipeline.{Hints, fetch_safe_head_hash}
use open_zk.Orchestrator.Intent.{ResolvedIntent}
use open_zk.Orchestrator.Monitor.{ChainState}
use open_zk.Orchestrator.Planner.{request_for, plan_range, range_end}
use open_zk.Common.Words.{debug, add_u64, sub_u64}
use open_zk.Host.Adapter.{RawWitness}
use open_zk.Host.KvStore
use open_zk.Host.KvStore.{set_all, collect, serialize_preimages}
use open_zk.Host.Witness.Output.{output_payload, derived_root, fetch_output_root}
use open_zk.Host.Witness.Output.SafeHead.{IsHeader, fetch_safe_head_hash-derived_root}
use open_zk.Host.Witness.Output.Sources.{RootOf, fetch_output_root-RootOf}
use open_zk.Host.Witness.Generate.{generate_witness}
use open_zk.Host.Witness.Generate.Steps.{Generated}
use open_zk.Host.Witness.Generate.Contents.{all_writes, generate_witness-delivered}
use open_zk.Host.Witness.Generate.Planned.{generate_witness-planned}
use open_zk.Host.Witness.{
  RpcWitnessProvider, new_provider, with_op_node_url, Values, Outside, Header, completed,
}
use open_zk.Host.Witness.Forks.{fork_mappings, merge_forks}
use open_zk.Host.Witness.Forks.Fields.{HasFields, added, or_else, merge_forks-added}

mutual
  data Doc : Type 0 where
    null : Doc
    num : ℕ → Doc
    str : Text → Doc
    obj : Fields → Doc

  data Fields : Type 0 where
    end : Fields
    field : Text → Doc → Fields → Fields

abbrev find : Fields → Text → Option Doc
find end key = none
find (field k v fields) key = let rest = find fields key in if bytes_eq k key then some v else rest

abbrev get_field : Doc → Text → Option Doc
get_field (obj fields) key = find fields key
get_field _ key = none

abbrev set : Doc → Text → Doc → Doc
set (obj fields) key v = obj (field key v fields)
set j key v = j

abbrev set_field : Doc → Text → Doc → Option Doc
set_field (obj fields) key v = some (obj (field key v fields))
set_field null key v = some (obj (field key v end))
set_field _ key v = none

abbrev is_null : Doc → Bool
is_null null = true
is_null _ = false

abbrev as_str : Doc → Option Text
as_str (str text) = some text
as_str _ = none

abbrev as_u64 : Doc → Option ℕ
as_u64 (num n) = some n
as_u64 _ = none

abbrev fields_of : List (Text × Doc) → Fields
fields_of [] = end
fields_of ((k, v) ∷ rest) = field k v (fields_of rest)

abbrev config : Doc
config = obj (field (codes "canyon_time") (num 7) (field (codes "l1_chain_id") (num 900) end))

abbrev values : Values Doc
values = record {
  parse = λ bytes. ok config;
  to_vec = λ j. ok [];
  to_string_pretty = λ j. ok [];
  get_field = get_field;
  set_field = set_field;
  is_null = is_null;
  as_str = as_str;
  as_u64 = as_u64;
  object = λ fields. obj (fields_of fields);
  number = num;
  string = str;
  bool = λ b. null;
}

abbrev Obj : Doc → Type 0
Obj (obj fields) = Unit {0}
Obj _ = Path Bool true false

set_field-set : (j : Doc) (key : Text) (v : Doc) → Obj j → set_field j key v ≡ some (set j key v)
set_field-set (obj fields) key v object = refl
set_field-set null key v object = cc
set_field-set (num n) key v object = cc
set_field-set (str text) key v object = cc

set-Obj : (j : Doc) (key : Text) (v : Doc) → Obj j → Obj (set j key v)
set-Obj (obj fields) key v object = tt
set-Obj null key v object = object
set-Obj (num n) key v object = object
set-Obj (str text) key v object = object

get_field-set :
    (j : Doc) (key : Text) (v : Doc) (other : Text)
    → Obj j
    → get_field (set j key v) other ≡ (if bytes_eq key other then some v else get_field j other)
get_field-set (obj fields) key v other object = refl
get_field-set null key v other object = cc
get_field-set (num n) key v other object = cc
get_field-set (str text) key v other object = cc

has_fields : HasFields values Obj
has_fields = record {
  set = set;
  set_field-set = set_field-set;
  set-IsObject = set-Obj;
  get_field-set = get_field-set;
}

abbrev chain_config : Doc
chain_config = obj (
    field (codes "regolithTime") (num 0) (
      field (codes "canyonTime") (num 9)
        (field (codes "deltaTime") null (field (codes "ecotoneTime") (num 11) end))))

merge_forks-added_example :
    (merged : Doc) × (merge_forks values chain_config fork_mappings config ≡ some merged)
    × Obj merged
    × ((key : Text)
        → get_field merged key
          ≡ or_else (get_field config key) (added values chain_config fork_mappings key))
merge_forks-added_example =
    merge_forks-added values Obj has_fields chain_config fork_mappings config tt

abbrev header_of : ℕ → Header
header_of n = record {
  hash = replicate 32 n;
  state_root = replicate 32 (n + 1);
  withdrawals_root = some (replicate 32 (n + 2));
}

-- Every answer is the configuration, in which there is no output root; kona's inputs have the first
-- local key alone, and its client reads one preimage.
abbrev outside : Outside (Unit {0}) Doc
outside = record {
  canonicalize = λ path w. (err [], w);
  read_to_string = λ path w. (ok [], w);
  read = λ path w. (ok [], w);
  write = λ path contents w. (ok tt, w);
  temp_file = λ name. name;
  process_id = 12;
  parse_url = ok;
  raw_request = λ url method args w. (ok config, w);
  get_block_by_number = λ url n w. (ok (some (header_of n)), w);
  parse_b256 = λ text. none;
  keccak256 = λ bytes. take 32 (drop 64 bytes);
  read_rollup_config = λ host w. (ok tt, w);
  read_l1_config = λ host w. (ok tt, w);
  create_providers = λ host w. (ok tt, w);
  new_channel = λ w. (ok tt, w);
  run_client = λ host w. ((completed, (5 ∷ [], 50 ∷ []) ∷ []), w);
  local_get = λ host key w. if bytes_eq key (1 ∷ []) then some host.l1_head else none;
  local_key = λ index. index ∷ [];
}

abbrev provider : RpcWitnessProvider
provider =
    with_op_node_url (codes "http://op")
      (new_provider (codes "http://l1") (codes "http://l2") (codes "http://beacon"))

abbrev root_122 : B256
root_122 = replicate 32 122

root_120 : fetch_output_root values outside provider (codes "http://l2") 120 tt ≡ (ok root_122, tt)
unfolding fetch_output_root bytes_eq
root_120 = refl

fetch_output_root-RootOf_example :
    RootOf values outside provider (codes "http://l2") 120 tt root_122
fetch_output_root-RootOf_example =
    fetch_output_root-RootOf values outside provider (codes "http://l2") 120 tt tt root_122 root_120

block_120-IsHeader : IsHeader (header_of 120)
block_120-IsHeader = record { hash = refl; state_root = refl; withdrawals_root = refl }

abbrev hints : Hints
hints = record { starting_l2_output = λ agreed. []; keccak_key = λ agreed. agreed }

-- The guest's store with the preimage of the root of block 120.
abbrev store_120 : PreimageStore
store_120 = record { entries = (root_122, output_payload (header_of 120)) ∷ [] }

stored : lookup store_120.entries root_122 ≡ some (output_payload (header_of 120))
unfolding lookup bytes_eq
stored = refl

fetch_safe_head_hash-derived_root_example :
    (root : B256) × (derived_root outside (codes "http://l2") 120 tt ≡ (ok root, tt))
    × (fetch_safe_head_hash hints (store_oracle store_120) root ≡ ok (replicate 32 120))
unfolding output_payload
fetch_safe_head_hash-derived_root_example =
    fetch_safe_head_hash-derived_root outside hints (header_of 120) store_120 (codes "http://l2")
      120 tt tt block_120-IsHeader refl stored

abbrev l1_head : B256
l1_head = replicate 32 9

abbrev state : ChainState
state = record {
  l1_head = l1_head;
  l1_block_number = 500;
  l2_proven_block = 100;
  l2_safe_block = 125;
  timestamp = 0;
}

abbrev intent : ResolvedIntent
intent = record {
  proof_mode = beacon;
  backend = sp1;
  proving_mode = groth16;
  aggregation_window = 10;
}

abbrev request : ProofRequest
request = request_for l1_head groth16 111 120

abbrev witness : RawWitness
witness = record {
  boot_info = boot_to_abi_bytes slot_codec (record {
    l1_head = l1_head;
    l2_pre_root = b256_zero;
    l2_claim = root_122;
    l2_block_number = 120;
    rollup_config_hash = [];
  });
  oracle_data = serialize_preimages archive ((1 ∷ [], l1_head) ∷ (5 ∷ [], 50 ∷ []) ∷ []);
  blob_data = [];
}

generated :
    generate_witness values outside archive slot_codec provider request tt ≡ (ok witness, tt)
unfolding generate_witness fetch_output_root bytes_eq request_for set_all insert collect KvStore.set
    serialize_preimages
generated = refl

generate_witness-delivered_example :
    (g : Generated values outside archive slot_codec provider request tt tt witness)
    × (s : PreimageStore) × (from_rkyv_bytes unarchive witness.oracle_data ≡ some s)
    × ((key : B256)
        → get s key
          ≡ ok_or
              (last_write
                (all_writes values outside archive slot_codec provider request tt tt witness g)
                key
                none)
              key_not_found)
generate_witness-delivered_example =
    generate_witness-delivered values outside archive slot_codec unarchive provider request tt tt
      witness unarchive-archive generated

planned :
    plan_range debug 25 intent 101 125 state
    ≡ returned
        (request_for l1_head groth16 101 110 ∷ request ∷ request_for l1_head groth16 121 125 ∷ [])
unfolding plan_range range_end add_u64 sub_u64
planned = refl

generate_witness-planned_example :
    (g : Generated values outside archive slot_codec provider request tt tt witness)
    × (outside.get_block_by_number g.l2_url 111 tt ≡ (ok (some g.start), tt))
    × (g.agreed ≡ g.start.hash)
    × (witness.boot_info
        ≡ boot_to_abi_bytes slot_codec (record {
          l1_head = l1_head;
          l2_pre_root = b256_zero;
          l2_claim = g.claimed;
          l2_block_number = 120;
          rollup_config_hash = g.rollup_config_hash;
        }))
unfolding request_for
generate_witness-planned_example =
    generate_witness-planned values outside archive slot_codec debug 25 intent 101 125 state []
      (request_for l1_head groth16 121 125 ∷ []) (request_for l1_head groth16 101 110) request
      provider tt tt witness (omega arith) (omega arith) (omega arith) (omega arith) planned
      generated
