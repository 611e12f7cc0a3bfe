-- ===== src/Cli/FastTrack.antt =====
-- crates/cli/src/commands/fast_track.rs: the deployment by `forge`. Its run and the parsing of an
-- address are parameters; what is checked before it, what it is given and what is read from its
-- output are modelled.
pub mod Deploy
pub mod Labelled
use open_zk.Common.{
  ℕ, zero, suc, ◌+◌, leb, ltb, ◌==◌, ◌&&◌, ◌||◌, Bool, true, false, not, if◌then◌else◌, Option,
  none, some, List, [], ◌∷◌, ◌++◌, length, take, drop, Text, codes, decimal,
}
use open_zk.Common.Outcome.{Outcome, returned, panicked, ok, err}
use open_zk.Common.Io.{Io, ◌>>=◌, pure, fail, map_err}
use open_zk.Core.{Bytes}
use open_zk.Cli.Halt.{Halt, error, settled}

pub record FastTrackArgs : Type 0 where
  pub l1_rpc_url : Text
  pub l2_rpc_url : Text
  pub l1_beacon_url : Text
  pub deployer_key : Text
  pub owner_key : Text
  pub starting_block : ℕ
  pub submission_interval : ℕ
  pub challenge_timeout : ℕ
  pub with_dispute_game : Bool

-- `DeploymentResult`, without the field that nothing reads.
pub record DeploymentResult : Type 0 where
  pub oracle_address : Bytes
  pub dispute_game_address : Option Bytes
  pub starting_block : ℕ

-- `starts_with`, and `strip_prefix` with `unwrap_or` of the whole.
unfoldable pub starts_with : Text → Text → Bool
starts_with [] s = true
starts_with (c ∷ p) [] = false
starts_with (c ∷ p) (d ∷ s) = c == d && starts_with p s

abbrev pub zero_x : Text
zero_x = 48 ∷ 120 ∷ []

unfoldable pub without_0x : Text → Text
unfolding starts_with
without_0x s = if starts_with zero_x s then drop 2 s else s

abbrev pub is_hexdigit : ℕ → Bool
is_hexdigit c = leb 48 c && leb c 57 || leb 65 c && leb c 70 || leb 97 c && leb c 102

abbrev pub all_hex : Text → Bool
all_hex [] = true
all_hex (c ∷ s) = is_hexdigit c && all_hex s

-- Is the deployer's key accepted?
unfoldable pub is_key : Text → Bool
unfolding without_0x
is_key deployer_key = let key = without_0x deployer_key in length key == 64 && all_hex key

-- `find`: where a text first occurs.
unfoldable pub find_from : ℕ → Text → Text → Option ℕ
unfolding starts_with
find_from pos p [] = if starts_with p [] then some pos else none
find_from pos p (c ∷ s) =
    let rest = find_from (pos + 1) p s in if starts_with p (c ∷ s) then some pos else rest

unfoldable pub find : Text → Text → Option ℕ
unfolding find_from
find p s = find_from 0 p s

abbrev pub is_found : Option ℕ → Bool
is_found none = false
is_found (some pos) = true

unfoldable pub contains : Text → Text → Bool
unfolding find
contains p s = is_found (find p s)

-- A line without the carriage return at its end.
unfoldable pub without_cr : Text → Text
without_cr [] = []
without_cr (c ∷ s) =
    let rest = without_cr s in elim s [ [] ↦ if c == 13 then [] else c ∷ [] | d ∷ t ↦ c ∷ rest ]

-- `lines()`: the text up to each newline, and what is left behind the last one, if anything. The
-- first argument is the line that is being read.
unfoldable pub lines_from : Text → Text → List Text
unfolding without_cr
lines_from [] [] = []
lines_from (c ∷ line) [] = (c ∷ line) ∷ []
lines_from line (c ∷ s) =
    let next = lines_from [] s in
    let more = lines_from (line ++ c ∷ []) s in if c == 10 then without_cr line ∷ next else more

unfoldable pub lines : Text → List Text
unfolding lines_from
lines output = lines_from [] output

-- `trim()` of a text that starts with `0x`; of the white space, what is ASCII.
abbrev pub is_space : ℕ → Bool
is_space c = leb 9 c && leb c 13 || c == 32

unfoldable pub trim_end : Text → Text
trim_end [] = []
trim_end (c ∷ s) =
    let rest = trim_end s in
    elim rest [ [] ↦ if is_space c then [] else c ∷ [] | d ∷ t ↦ c ∷ d ∷ t ]

-- Is there a character's first byte, or nothing?
abbrev pub at_boundary : Text → Bool
at_boundary [] = true
at_boundary (c ∷ s) = not (leb 128 c && ltb c 192)

-- The candidate for an address; a slice that cuts a character panics.
unfoldable pub candidate : Text → Outcome Text
unfolding trim_end
candidate addr_str =
    if leb 42 (length addr_str)
    then (if at_boundary (drop 42 addr_str) then returned (take 42 addr_str) else panicked)
    else returned (trim_end addr_str)

module _ (parse_address : Text → Option Bytes) where
  abbrev or_next : Option Bytes → Outcome (Option Bytes) → Outcome (Option Bytes)
  or_next (some addr) next = returned (some addr)
  or_next none next = next

  abbrev parsed : Outcome Text → Outcome (Option Bytes) → Outcome (Option Bytes)
  parsed (returned text) next = or_next (parse_address text) next
  parsed panicked next = panicked
  parsed Outcome.out_of_fuel next = Outcome.out_of_fuel

  abbrev address_at : Option ℕ → Text → Outcome (Option Bytes) → Outcome (Option Bytes)
  unfolding candidate
  address_at none line next = next
  address_at (some pos) line next = parsed (candidate (drop pos line)) next

  unfoldable pub extract_from : List Text → Text → Outcome (Option Bytes)
  unfolding contains address_at find
  extract_from [] contract_name = returned none
  extract_from (line ∷ rest) contract_name =
      let next = extract_from rest contract_name in
      if contains contract_name line then address_at (find zero_x line) line next else next

  unfoldable pub extract_address : Text → Text → Outcome (Option Bytes)
  unfolding lines extract_from
  extract_address output contract_name = extract_from (lines output) contract_name

  abbrev missing : Text → Halt
  missing name = error (codes "failed to find " ++ name ++ codes " address in forge output")

  abbrev found_or_missing : {W : Type 0} → Text → Option Bytes → Io W Halt Bytes
  found_or_missing name none = fail (missing name)
  found_or_missing name (some address) = pure address

  abbrev address_of : {W : Type 0} → Text → Text → Io W Halt Bytes
  unfolding extract_address
  address_of output name = do
    found ← settled (extract_address output name)
    found_or_missing name found

  abbrev dispute_of : {W : Type 0} → Bool → Text → Io W Halt (Option Bytes)
  unfolding address_of
  dispute_of false output = pure none
  dispute_of true output = do
    address ← address_of output (codes "OpenZkDisputeGame")
    pure (some address)

  unfoldable pub parse_deployment_output :
      {W : Type 0} → Text → FastTrackArgs → Io W Halt DeploymentResult
  unfolding address_of dispute_of
  parse_deployment_output output args = do
    oracle_address ← address_of output (codes "OpenZkL2OutputOracle")
    dispute_game_address ← dispute_of args.with_dispute_game output
    pure (record {
      oracle_address = oracle_address;
      dispute_game_address = dispute_game_address;
      starting_block = args.starting_block;
    })

-- What `forge` is run with: its directory, its arguments, and its environment.
pub record ForgeCommand : Type 0 where
  pub current_dir : Text
  pub arguments : List Text
  pub deployer_private_key : Text
  pub deploy_dispute_game : Text
  pub challenge_timeout : Text

unfoldable pub forge_command : FastTrackArgs → ForgeCommand
unfolding starts_with decimal
forge_command args = record {
  current_dir = codes "contracts";
  arguments =
      codes "script"
      ∷ codes "script/DeployDevnet.s.sol"
      ∷ codes "--rpc-url"
      ∷ args.l1_rpc_url
      ∷ codes "--broadcast"
      ∷ [];
  deployer_private_key =
      if starts_with zero_x args.deployer_key
      then args.deployer_key
      else zero_x ++ args.deployer_key;
  deploy_dispute_game = if args.with_dispute_game then codes "true" else codes "false";
  challenge_timeout = decimal args.challenge_timeout;
}
