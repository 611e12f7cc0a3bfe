-- ===== src/Host/Pricing.antt =====
-- crates/host/src/pricing/boundless.rs: the percentiles of market prices by name.
pub mod Percentiles
pub mod Provider
pub mod Fixed
pub mod Boundless
pub mod Succinct
pub mod TokenPrice
pub mod Whole
use open_zk.Common.{
  ℕ, ◌+◌, leb, ◌&&◌, bytes_eq, if◌then◌else◌, Option, none, some, List, [], ◌∷◌, map, Text, codes,
}
use open_zk.Common.Outcome.{Result, ok, err}

pub data Percentile : Type 0 where
  p5 p10 p25 p50 p75 p90 p95 p99 : Percentile

unfoldable pub field_name : Percentile → Text
field_name p5 = codes "p5"
field_name p10 = codes "p10"
field_name p25 = codes "p25"
field_name p50 = codes "p50"
field_name p75 = codes "p75"
field_name p90 = codes "p90"
field_name p95 = codes "p95"
field_name p99 = codes "p99"

-- `to_lowercase` on ASCII. Other letters stay: the only ones that it would change to an ASCII letter
-- are the Kelvin sign and the dotted capital I, and neither letter occurs in a name below.
unfoldable pub to_lowercase : Text → Text
to_lowercase [] = []
to_lowercase (c ∷ s) = (if leb 65 c && leb c 90 then c + 32 else c) ∷ to_lowercase s

-- The arms of the `match` in `parse`, from the first one on.
unfoldable pub parse_arms : Text → List (Text × Percentile) → Option Percentile
parse_arms s [] = none
parse_arms s ((name, p) ∷ arms) =
    let rest = parse_arms s arms in if bytes_eq s name then some p else rest

abbrev pub arms : List (Text × Percentile)
arms =
    (codes "p5", p5)
    ∷ (codes "p10", p10)
    ∷ (codes "p25", p25)
    ∷ (codes "p50", p50)
    ∷ (codes "p75", p75)
    ∷ (codes "p90", p90)
    ∷ (codes "p95", p95)
    ∷ (codes "p99", p99)
    ∷ []

unfoldable pub parse : Text → Option Percentile
unfolding to_lowercase parse_arms
parse s = parse_arms (to_lowercase s) arms
