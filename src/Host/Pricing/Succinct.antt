-- ===== src/Host/Pricing/Succinct.antt =====
-- crates/host/src/pricing/succinct.rs: prices from the requests that the Succinct network fulfilled.
-- The network's client and the environment are parameters.
pub mod Sorting
pub mod Median
use open_zk.Common.{
  ℕ, zero, suc, ◌+◌, ◌-◌, ◌*◌, ◌/◌, ◌%◌, ltb, ◌==◌, Bool, true, false, if◌then◌else◌, Option, none,
  some, List, [], ◌∷◌, ◌++◌, length, Text, codes, decimal,
}
use open_zk.Common.Outcome.{Result, ok, err}
use open_zk.Common.Io.{Io, ◌>>=◌, pure, fail, map_err, ok_or_fail}
use open_zk.Common.Parse.{parse_u128}
use open_zk.Core.{ZkvmBackend, sp1, risc_zero, auto, mock, CycleEstimate, PricingInfo}
use open_zk.Host.Pricing.Provider.{Order, less, equal, greater, Double, PricingProvider}

abbrev pub sp1_cycles_per_sec : ℕ
sp1_cycles_per_sec = 1000000

abbrev pub default_sample_size : ℕ
default_sample_size = 50

pub record SuccinctPricing (Client F : Type 0) : Type 0 where
  pub client : Client
  pub sample_size : ℕ
  pub prove_usd : F

pub data SuccinctPricingError : Type 0 where
  grpc : Text → SuccinctPricingError
  no_data : SuccinctPricingError
  bad_config : Text → SuccinctPricingError
  unsupported_backend : ZkvmBackend → SuccinctPricingError

-- The fields that are read of a fulfilled request, and the two forms of the network's answer.
pub record FulfilledRequest : Type 0 where
  pub gas_used : Option ℕ
  pub gas_price : Option ℕ
  pub deduction_amount : Option Text
  pub cycles : Option ℕ

pub data Response : Type 0 where
  auction base : List FulfilledRequest → Response

-- An environment variable, `NetworkSigner::local`, `NetworkClient::new`, and the request for at most
-- so many fulfilled requests.
pub record Network (W Signer Client : Type 0) : Type 0 where
  pub env_var : Text → W → Option Text
  pub local_signer : Text → Result Text Signer
  pub new_client : Signer → Client
  pub get_filtered_proof_requests : Client → ℕ → W → Result Text Response × W

abbrev parsed_or_none : Result Text ℕ → Option ℕ
parsed_or_none (err e) = none
parsed_or_none (ok n) = some n

abbrev deducted : Option Text → Option ℕ
deducted none = none
deducted (some deduction) = parsed_or_none (parse_u128 deduction)

-- The gas times its price, or the deduction where one of them is missing.
unfoldable pub cost_wei : Option ℕ → Option ℕ → Option Text → Option ℕ
unfolding parse_u128
cost_wei (some gas_used) (some gas_price) deduction = some (gas_used * gas_price)
cost_wei (some gas_used) none deduction = deducted deduction
cost_wei none gas_price deduction = deducted deduction

module _ {F : Type 0} (double : Double F) where
  abbrev priced : Option ℕ → ℕ → Option (F × ℕ)
  priced none cycles = none
  priced (some wei) cycles =
      some (double.over (double.of_int wei) (double.literal 1000000000000000000 1), cycles)

  abbrev cost_pair : Option ℕ → FulfilledRequest → Option (F × ℕ)
  unfolding cost_wei
  cost_pair none req = none
  cost_pair (some cycles) req =
      priced (cost_wei req.gas_used req.gas_price req.deduction_amount) cycles

  abbrev with_some : {A : Type 0} → Option A → List A → List A
  with_some none rest = rest
  with_some (some a) rest = a ∷ rest

  -- `extract_cost_pairs_auction` and `extract_cost_pairs_base`, which differ in the type alone.
  unfoldable pub extract_cost_pairs : List FulfilledRequest → List (F × ℕ)
  unfolding cost_pair
  extract_cost_pairs [] = []
  extract_cost_pairs (req ∷ requests) =
      with_some (cost_pair req.cycles req) (extract_cost_pairs requests)

  unfoldable pub pairs_of : Response → List (F × ℕ)
  unfolding extract_cost_pairs
  pairs_of (auction requests) = extract_cost_pairs requests
  pairs_of (base requests) = extract_cost_pairs requests

  -- The prices of the pairs with cycles.
  unfoldable pub prices_per_cycle : List (F × ℕ) → List F
  prices_per_cycle [] = []
  prices_per_cycle ((cost_prove, cycles) ∷ pairs) =
      let rest = prices_per_cycle pairs in
      if ltb 0 cycles then double.over cost_prove (double.of_int cycles) ∷ rest else rest

  -- `partial_cmp(..).unwrap_or(Equal)`: is the first the greater one?
  abbrev pub is_greater : F → F → Bool
  is_greater a b = elim (double.partial_cmp a b) [
    | none ↦ false
    | some order ↦ elim order [ less ↦ false | equal ↦ false | greater ↦ true ]
  ]

  -- `sort_by`, which keeps the order of elements that compare as equal.
  unfoldable pub insert_sorted : F → List F → List F
  insert_sorted x [] = x ∷ []
  insert_sorted x (y ∷ ys) =
      let rest = insert_sorted x ys in if is_greater x y then y ∷ rest else x ∷ y ∷ ys

  unfoldable pub sort_prices : List F → List F
  unfolding insert_sorted
  sort_prices [] = []
  sort_prices (x ∷ xs) = insert_sorted x (sort_prices xs)

  -- `prices[i]`; `none` where it panics.
  abbrev pub get_elem? : List F → ℕ → Option F
  get_elem? [] i = none
  get_elem? (x ∷ xs) zero = some x
  get_elem? (x ∷ xs) (suc i) = get_elem? xs i

  abbrev pub halfway : Option F → Option F → Option F
  halfway none b = none
  halfway (some a) none = none
  halfway (some a) (some b) = some (double.over (double.plus a b) (double.literal 2 1))

  -- The median of sorted prices; `none` where an index panics.
  unfoldable pub median : List F → Option F
  median prices =
      let n = length prices in
      if n % 2 == 0
      then halfway (get_elem? prices (n / 2 - 1)) (get_elem? prices (n / 2))
      else get_elem? prices (n / 2)

-- How a call ends without a value: with an error, or with a panic.
pub data Stop : Type 0 where
  failed : SuccinctPricingError → Stop
  panic : Stop

abbrev pub succinct_supports : ZkvmBackend → Bool
succinct_supports sp1 = true
succinct_supports risc_zero = false
succinct_supports auto = false
succinct_supports mock = false

abbrev or_env : Option Text → Option Text → Option Text
or_env (some key) other = some key
or_env none other = other

module _ {W F Signer Client : Type 0} (double : Double F) (network : Network W Signer Client) where
  unfoldable pub from_env : F → Io W SuccinctPricingError (SuccinctPricing Client F)
  from_env prove_usd = do
    private_key ← λ w.
        ok_or_fail
          (or_env (network.env_var (codes "NETWORK_PRIVATE_KEY") w)
            (network.env_var (codes "SP1_PRIVATE_KEY") w))
          (bad_config
            (codes "NETWORK_PRIVATE_KEY or SP1_PRIVATE_KEY env var required for Succinct pricing"))
          w
    signer ← λ w.
        map_err (λ e. bad_config (codes "invalid private key: " ++ e))
          (network.local_signer private_key, w)
    pure (record {
      client = network.new_client signer;
      sample_size = default_sample_size;
      prove_usd = prove_usd;
    })

  -- The median of some prices with their number, where there are any.
  unfoldable pub market_price : List F → Io W Stop (F × ℕ)
  unfolding sort_prices median
  market_price [] = fail (failed no_data)
  market_price (x ∷ xs) = do
    price ← ok_or_fail (median double (sort_prices double (x ∷ xs))) panic
    pure (price, length (sort_prices double (x ∷ xs)))

  unfoldable pub fetch_market_price : SuccinctPricing Client F → Io W Stop (F × ℕ)
  unfolding pairs_of prices_per_cycle market_price
  fetch_market_price self = do
    response ← λ w.
        map_err (λ e. failed (grpc e))
          (network.get_filtered_proof_requests self.client self.sample_size w)
    market_price (prices_per_cycle double (pairs_of double response))

  abbrev pub succinct_info : SuccinctPricing Client F → CycleEstimate → F × ℕ → PricingInfo F
  unfolding decimal
  succinct_info self estimate (price, sample_count) = record {
    cost_usd = double.times (double.times price (double.of_int estimate.cycles)) self.prove_usd;
    duration_secs = estimate.cycles / sp1_cycles_per_sec;
    source = codes "succinct-market-p50-" ++ decimal sample_count;
    native_cost = some (double.times price (double.of_int estimate.cycles));
    native_symbol = some (codes "PROVE");
    token_usd_rate = some self.prove_usd;
  }

  abbrev supported_price :
      Bool → SuccinctPricing Client F → CycleEstimate → Io W Stop (PricingInfo F)
  supported_price false self estimate = fail (failed (unsupported_backend estimate.backend))
  supported_price true self estimate = do
    market ← fetch_market_price self
    pure (succinct_info self estimate market)

  unfoldable pub succinct_price :
      SuccinctPricing Client F → CycleEstimate → Io W Stop (PricingInfo F)
  unfolding fetch_market_price succinct_info
  succinct_price self estimate = supported_price (succinct_supports estimate.backend) self estimate

  abbrev pub succinct_provider : SuccinctPricing Client F → PricingProvider W F Stop
  succinct_provider self = record {
    name = codes "succinct";
    supports_backend = succinct_supports;
    price = succinct_price self;
  }
