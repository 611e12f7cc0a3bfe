-- ===== src/Host/Pricing/Boundless.antt =====
-- crates/host/src/pricing/boundless.rs: prices of the Boundless market. The request to the indexer and
-- serde's reading of its answer are parameters.
pub mod Market
use open_zk.Common.{
  ℕ, zero, suc, ◌/◌, leb, ltb, ◌==◌, ◌&&◌, Bool, true, false, if◌then◌else◌, Option, none, some,
  List, [], ◌∷◌, ◌++◌, Text, codes,
}
use open_zk.Common.Outcome.{Result, ok, err, Outcome, returned, panicked}
use open_zk.Common.Io.{Io, ◌>>=◌, pure, fail, map_err, ok_or_fail}
use open_zk.Common.Parse.{parse_u128}
use open_zk.Core.{ZkvmBackend, sp1, risc_zero, auto, mock, CycleEstimate, PricingInfo}
use open_zk.Host.Pricing.{Percentile, p5, p10, p25, p50, p75, p90, p95, p99, field_name}
use open_zk.Host.Pricing.Provider.{Double, PricingProvider}

abbrev pub risc_zero_cycles_per_sec : ℕ
risc_zero_cycles_per_sec = 500000

pub record BoundlessPricing (F : Type 0) : Type 0 where
  pub indexer_url : Text
  pub percentile : Percentile
  pub eth_usd : F

pub data BoundlessPricingError : Type 0 where
  http : Text → BoundlessPricingError
  no_data : BoundlessPricingError
  parse_wei : Text → Text → BoundlessPricingError
  unsupported_backend : ZkvmBackend → BoundlessPricingError

pub record AggregateEntry : Type 0 where
  pub p5_lock_price_per_cycle : Text
  pub p10_lock_price_per_cycle : Text
  pub p25_lock_price_per_cycle : Text
  pub p50_lock_price_per_cycle : Text
  pub p75_lock_price_per_cycle : Text
  pub p90_lock_price_per_cycle : Text
  pub p95_lock_price_per_cycle : Text
  pub p99_lock_price_per_cycle : Text

-- `trim_end_matches('/')`
unfoldable pub trim_slashes : Text → Text
trim_slashes [] = []
trim_slashes (c ∷ s) =
    let rest = trim_slashes s in
    elim rest [ [] ↦ if c == 47 then [] else c ∷ [] | d ∷ t ↦ c ∷ d ∷ t ]

-- `client_built` is what building the HTTP client gives, whose error is a panic.
unfoldable pub with_options :
    {F : Type 0} → Result Text (Unit {0}) → Text → Percentile → F → Outcome (BoundlessPricing F)
unfolding trim_slashes
with_options (err e) indexer_url percentile eth_usd = panicked
with_options (ok client) indexer_url percentile eth_usd =
    returned (record {
      indexer_url = trim_slashes indexer_url;
      percentile = percentile;
      eth_usd = eth_usd;
    })

abbrev pub field_for : AggregateEntry → Percentile → Text
field_for entry p5 = entry.p5_lock_price_per_cycle
field_for entry p10 = entry.p10_lock_price_per_cycle
field_for entry p25 = entry.p25_lock_price_per_cycle
field_for entry p50 = entry.p50_lock_price_per_cycle
field_for entry p75 = entry.p75_lock_price_per_cycle
field_for entry p90 = entry.p90_lock_price_per_cycle
field_for entry p95 = entry.p95_lock_price_per_cycle
field_for entry p99 = entry.p99_lock_price_per_cycle

abbrev parsed_wei : Text → Result Text ℕ → Result BoundlessPricingError ℕ
parsed_wei s (err e) = err (parse_wei s e)
parsed_wei s (ok wei) = ok wei

unfoldable pub price_for_percentile : AggregateEntry → Percentile → Result BoundlessPricingError ℕ
unfolding parse_u128
price_for_percentile self p = let s = field_for self p in parsed_wei s (parse_u128 s)

-- `text.chars().take(n).collect()` on UTF-8: a byte from 128 to 191 goes on with a character.
unfoldable pub take_chars : ℕ → Text → Text
take_chars n [] = []
take_chars zero (c ∷ s) =
    let rest = take_chars zero s in if leb 128 c && ltb c 192 then c ∷ rest else []
take_chars (suc n) (c ∷ s) =
    let same = take_chars (suc n) s in
    let next = take_chars n s in if leb 128 c && ltb c 192 then c ∷ same else c ∷ next

-- Whether an HTTP client can be built, the text behind a request to a URL, and the entries that serde
-- reads from it.
pub record Indexer (W : Type 0) : Type 0 where
  pub client_built : Result Text (Unit {0})
  pub get_text : Text → W → Result Text Text × W
  pub parse_response : Text → Result Text (List AggregateEntry)

abbrev first_entry : List AggregateEntry → Option AggregateEntry
first_entry [] = none
first_entry (entry ∷ entries) = some entry

abbrev pub boundless_supports : ZkvmBackend → Bool
boundless_supports risc_zero = true
boundless_supports sp1 = false
boundless_supports auto = false
boundless_supports mock = false

module _ {W F : Type 0} (double : Double F) (indexer : Indexer W) where
  unfoldable pub fetch_price_per_cycle : BoundlessPricing F → Io W BoundlessPricingError ℕ
  unfolding take_chars price_for_percentile
  fetch_price_per_cycle self = do
    text ← λ w. map_err http (
        indexer.get_text
          (self.indexer_url ++ codes "/v1/market/aggregates?aggregation=hourly&limit=1&sort=desc")
          w)
    entries ← λ w. map_err (parse_wei (take_chars 200 text)) (indexer.parse_response text, w)
    entry ← ok_or_fail (first_entry entries) no_data
    λ w. (price_for_percentile entry self.percentile, w)

  -- What the price in wei of a cycle comes to.
  abbrev pub total_eth : ℕ → ℕ → F
  total_eth wei_per_cycle cycles =
      double.over (double.times (double.of_int wei_per_cycle) (double.of_int cycles))
        (double.literal 1000000000000000000 1)

  abbrev pub boundless_info : BoundlessPricing F → CycleEstimate → ℕ → PricingInfo F
  unfolding field_name
  boundless_info self estimate wei_per_cycle = record {
    cost_usd = double.times (total_eth wei_per_cycle estimate.cycles) self.eth_usd;
    duration_secs = estimate.cycles / risc_zero_cycles_per_sec;
    source = codes "boundless-market-" ++ field_name self.percentile;
    native_cost = some (total_eth wei_per_cycle estimate.cycles);
    native_symbol = some (codes "ETH");
    token_usd_rate = some self.eth_usd;
  }

  abbrev supported_price :
      Bool → BoundlessPricing F → CycleEstimate → Io W BoundlessPricingError (PricingInfo F)
  supported_price false self estimate = fail (unsupported_backend estimate.backend)
  supported_price true self estimate = do
    wei_per_cycle ← fetch_price_per_cycle self
    pure (boundless_info self estimate wei_per_cycle)

  unfoldable pub boundless_price :
      BoundlessPricing F → CycleEstimate → Io W BoundlessPricingError (PricingInfo F)
  unfolding fetch_price_per_cycle boundless_info
  boundless_price self estimate =
      supported_price (boundless_supports estimate.backend) self estimate

  abbrev pub boundless_provider : BoundlessPricing F → PricingProvider W F BoundlessPricingError
  boundless_provider self = record {
    name = codes "boundless";
    supports_backend = boundless_supports;
    price = boundless_price self;
  }
