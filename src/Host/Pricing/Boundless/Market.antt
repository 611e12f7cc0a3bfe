-- ===== src/Host/Pricing/Boundless/Market.antt =====
-- The market's price, from what the indexer answers.
use open_zk.Common.{◌++◌, Text, codes}
use open_zk.Host.Pricing.Provider.{Double}
use open_zk.Host.Pricing.Boundless.{BoundlessPricing, Indexer}

module _ {W F : Type 0} (double : Double F) (indexer : Indexer W) where
  -- The address of the latest hourly aggregate.
  abbrev pub latest : BoundlessPricing F → Text
  latest self =
      self.indexer_url ++ codes "/v1/market/aggregates?aggregation=hourly&limit=1&sort=desc"
