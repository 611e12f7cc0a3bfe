-- ===== src/Host/Pricing/Succinct/Median.antt =====
-- The price that is taken from the market is a median of the sampled prices.
use open_zk.Common.{ℕ, ◌-◌, ◌/◌, List, take, drop, All}
use open_zk.Host.Pricing.Provider.{Double}
use open_zk.Host.Pricing.Succinct.Sorting.{AtMost, IsOrdered}

module _ {F : Type 0} (double : Double F) where
  module _ (Number : F → Type 0) (ordered : IsOrdered double Number) where
    -- The halves of a list: no element of the lower one is greater than `m`, and `m` is greater than
    -- no element of the upper one.
    abbrev pub Halves : F → ℕ → List F → Type 0
    Halves m n xs =
        All (λ x. AtMost double x m) (take (n / 2) xs) × All (AtMost double m) (drop (n - n / 2) xs)
