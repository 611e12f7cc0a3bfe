-- ===== src/Host/PricingTests.antt =====
-- Prices in whole numbers: four requests, and an indexer that answers with one entry.
use open_zk.Common.{ℕ, ◌≡◌, refl, none, some, List, [], ◌∷◌, codes}
use open_zk.Common.Outcome.{ok, returned}
use open_zk.Core.{sp1}
use open_zk.Host.Pricing.{p50}
use open_zk.Host.Pricing.Fixed.{default_fixed, fixed_price, fixed_info}
use open_zk.Host.Pricing.Boundless.{BoundlessPricing, AggregateEntry, Indexer, trim_slashes}
use open_zk.Host.Pricing.Succinct.{Network, auction, market_price, cost_wei}
use open_zk.Host.Pricing.Whole.{whole}

abbrev network : Network (Unit {0}) (Unit {0}) (Unit {0})
network = record {
  env_var = λ name w. none;
  local_signer = λ key. ok tt;
  new_client = λ signer. tt;
  get_filtered_proof_requests = λ client limit w. (ok (auction []), w);
}

four_prices : market_price whole network (30 ∷ 10 ∷ 40 ∷ 20 ∷ []) tt ≡ (ok (25, 4), tt)
unfolding market_price
four_prices = refl

deduction_used : cost_wei none (some 7) (some (codes "+120")) ≡ some 120
unfolding cost_wei
deduction_used = refl

abbrev entry : AggregateEntry
entry = record {
  p5_lock_price_per_cycle = codes "1";
  p10_lock_price_per_cycle = codes "2";
  p25_lock_price_per_cycle = codes "3";
  p50_lock_price_per_cycle = codes "4200";
  p75_lock_price_per_cycle = codes "5";
  p90_lock_price_per_cycle = codes "6";
  p95_lock_price_per_cycle = codes "7";
  p99_lock_price_per_cycle = codes "8";
}

abbrev indexer : Indexer (Unit {0})
indexer = record {
  client_built = ok tt;
  get_text = λ url w. (ok (codes "{}"), w);
  parse_response = λ text. ok (entry ∷ []);
}

abbrev pricing : BoundlessPricing ℕ
pricing = record { indexer_url = codes "https://indexer"; percentile = p50; eth_usd = 2000 }

slashes : trim_slashes (codes "https://indexer//") ≡ codes "https://indexer"
unfolding trim_slashes
slashes = refl

sp1_price :
    fixed_price whole (default_fixed whole) (record { cycles = 2500000; backend = sp1 })
    ≡ returned (fixed_info whole 0 2)
unfolding fixed_price default_fixed
sp1_price = refl
