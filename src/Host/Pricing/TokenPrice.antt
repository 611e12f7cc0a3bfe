-- ===== src/Host/Pricing/TokenPrice.antt =====
-- crates/host/src/pricing/token_price.rs: the prices of two tokens, from a web service or else fixed.
-- The service's answer is a parameter.
use open_zk.Common.{Option, none, some, Text, codes, ◌++◌}
use open_zk.Common.Outcome.{Result, ok, err}
use open_zk.Common.Io.{Io, ◌>>=◌, ok_or_fail}
use open_zk.Host.Pricing.Provider.{Double}

-- The JSON behind a request to a URL, a field of it, and its number.
pub record PriceService (W Json F : Type 0) : Type 0 where
  pub get_json : Text → W → Result Text Json × W
  pub get_field : Json → Text → Option Json
  pub as_f64 : Json → Option F

abbrev pub coingecko_eth_url : Text
coingecko_eth_url =
    codes "https://api.coingecko.com/api/v3/simple/price?ids=ethereum&vs_currencies=usd"

abbrev pub coingecko_prove_url : Text
coingecko_prove_url =
    codes "https://api.coingecko.com/api/v3/simple/price?ids=succinct&vs_currencies=usd"

module _ {W Json F : Type 0} (double : Double F) (service : PriceService W Json F) where
  abbrev number_in : Option Json → Option F
  number_in none = none
  number_in (some usd) = service.as_f64 usd

  unfoldable pub fetch_token_price : Text → Text → Io W Text F
  fetch_token_price url token_key = do
    resp ← service.get_json url
    token ←
        ok_or_fail (service.get_field resp token_key)
          (codes "missing '" ++ token_key ++ codes "' in CoinGecko response")
    ok_or_fail (number_in (service.get_field token (codes "usd")))
        (codes "missing '" ++ token_key ++ codes ".usd' in CoinGecko response")

  abbrev or_default : F → Result Text F × W → F × W
  or_default price (err e, w) = (price, w)
  or_default price (ok found, w) = (found, w)

  -- The given price, or that of the service, or 2000.
  unfoldable pub fetch_eth_usd : Option F → W → F × W
  unfolding fetch_token_price
  fetch_eth_usd (some price) w = (price, w)
  fetch_eth_usd none w =
      or_default (double.literal 2000 1) (fetch_token_price coingecko_eth_url (codes "ethereum") w)

  -- The given price, or that of the service, or 0.10.
  unfoldable pub fetch_prove_usd : Option F → W → F × W
  unfolding fetch_token_price
  fetch_prove_usd (some price) w = (price, w)
  fetch_prove_usd none w =
      or_default (double.literal 10 100)
        (fetch_token_price coingecko_prove_url (codes "succinct") w)
