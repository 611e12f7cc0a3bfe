-- ===== src/Host/Witness/Forks.antt =====
-- crates/host/src/witness/rpc.rs: the fork times that the rollup configuration lacks, from the chain
-- configuration of the L2 node.
pub mod Fields
use open_zk.Common.{if◌then◌else◌, Option, none, some, List, [], ◌∷◌, Text, codes}
use open_zk.Common.Maybe.{◌>>=◌}
use open_zk.Host.Witness.{Values}

abbrev pub fork_mappings : List (Text × Text)
fork_mappings =
    (codes "regolithTime", codes "regolith_time")
    ∷ (codes "canyonTime", codes "canyon_time")
    ∷ (codes "deltaTime", codes "delta_time")
    ∷ (codes "ecotoneTime", codes "ecotone_time")
    ∷ (codes "fjordTime", codes "fjord_time")
    ∷ (codes "graniteTime", codes "granite_time")
    ∷ (codes "holoceneTime", codes "holocene_time")
    ∷ (codes "isthmusTime", codes "isthmus_time")
    ∷ []

module _ {Json : Type 0} (values : Values Json) where
  abbrev pub assigned : Json → Text → Option Json → Option Json
  assigned rollup_config snake none = some rollup_config
  assigned rollup_config snake (some value) =
      if values.is_null value
      then some rollup_config
      else values.set_field rollup_config snake value

  abbrev pub added_if_missing : Json → Text → Option Json → Option Json → Option Json
  added_if_missing rollup_config snake (some _) value = some rollup_config
  added_if_missing rollup_config snake none value = assigned rollup_config snake value

  -- One round of the loop, with the field of the one configuration and the value of the other;
  -- `none` where the assignment panics.
  unfoldable pub merge_fork : Json → Text → Text → Json → Option Json
  merge_fork chain_config camel snake rollup_config =
      added_if_missing rollup_config snake (values.get_field rollup_config snake)
        (values.get_field chain_config camel)

  unfoldable pub merge_forks : Json → List (Text × Text) → Json → Option Json
  unfolding merge_fork
  merge_forks chain_config [] rollup_config = some rollup_config
  merge_forks chain_config ((camel, snake) ∷ mappings) rollup_config = do
    merged ← merge_fork chain_config camel snake rollup_config
    merge_forks chain_config mappings merged
