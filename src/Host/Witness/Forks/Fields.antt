-- ===== src/Host/Witness/Forks/Fields.antt =====
-- The fields of the merged configuration.
use open_zk.Common.{
  ◌≡◌, refl, ap, sym, ◌∙◌, Bool, true, false, if◌then◌else◌, Bool-cases, inl, inr, bytes_eq,
  bytes_eq→eq, Option, none, some, List, [], ◌∷◌, Text,
}
use open_zk.Common.Maybe.{◌>>=◌}
use open_zk.Host.Witness.{Values}
use open_zk.Host.Witness.Forks.{assigned, added_if_missing, merge_fork, merge_forks}

-- What serde documents of an assignment to a field of an object: it does not panic, the object stays
-- one, and the field has the value while the others have theirs.
pub record HasFields {Json : Type 0} (values : Values Json) (IsObject : Json → Type 0)
    : Type 0 where
  pub set : Json → Text → Json → Json
  pub set_field-set :
      (j : Json) (key : Text) (v : Json)
      → IsObject j
      → values.set_field j key v ≡ some (set j key v)
  pub set-IsObject : (j : Json) (key : Text) (v : Json) → IsObject j → IsObject (set j key v)
  pub get_field-set :
      (j : Json) (key : Text) (v : Json) (other : Text)
      → IsObject j
      → values.get_field (set j key v) other
        ≡ (if bytes_eq key other then some v else values.get_field j other)

abbrev pub or_else : {A : Type 0} → Option A → Option A → Option A
or_else none b = b
or_else (some a) b = some a

module _ {A : Type 0} where
  if_same : (b : Bool) {a : A} → (if b then a else a) ≡ a
  if_same true = refl
  if_same false = refl

  or_else-none : (a : Option A) → or_else a none ≡ a
  or_else-none none = refl
  or_else-none (some a) = refl

  or_else_if :
      (b : Bool) (a n rest : Option A)
      → or_else (or_else a (if b then n else none)) rest
        ≡ or_else a (if b then or_else n rest else rest)
  or_else_if true none n rest = refl
  or_else_if false none n rest = refl
  or_else_if true (some a) n rest = refl
  or_else_if false (some a) n rest = refl

module _ {Json : Type 0} (values : Values Json) where
  abbrev pub not_null : Option Json → Option Json
  not_null none = none
  not_null (some value) = if values.is_null value then none else some value

  -- The first value for the field among the mappings to it that is there and is not null.
  abbrev pub added : Json → List (Text × Text) → Text → Option Json
  added chain_config [] key = none
  added chain_config ((camel, snake) ∷ mappings) key =
      let rest = added chain_config mappings key in
      if bytes_eq snake key
      then or_else (not_null (values.get_field chain_config camel)) rest
      else rest

  module _ (IsObject : Json → Type 0) (fields : HasFields values IsObject) where
    -- What a round of the loop leaves.
    abbrev Merged : Option Json → Json → (Text → Option Json) → Type 0
    Merged result before extra =
        (after : Json) × (result ≡ some after)
        × IsObject after
        × ((key : Text)
            → values.get_field after key ≡ or_else (values.get_field before key) (extra key))

    kept :
        (config : Json) (extra : Text → Option Json)
        → IsObject config
        → ((key : Text)
            → values.get_field config key ≡ or_else (values.get_field config key) (extra key))
        → Merged (some config) config extra
    kept config extra object same = (config, refl, object, same)

    had :
        (config : Json) (snake : Text) (v : Json) (n : Option Json) (key : Text)
        → values.get_field config snake ≡ some v
        → values.get_field config key
          ≡ or_else (values.get_field config key) (if bytes_eq snake key then n else none)
    had config snake v n key found = elim (Bool-cases (bytes_eq snake key)) [
      | inr differ ↦ rw (differ) (sym (or_else-none _))
      | inl same ↦
          let here : values.get_field config key ≡ some v =
            ap (λ t. values.get_field config t) (sym (bytes_eq→eq snake key same)) ∙ found in
          rw (here)
    ]

    lacked :
        (b : Bool) (a : Option Json) (v : Json)
        → (b ≡ true → a ≡ none)
        → (if b then some v else a) ≡ or_else a (if b then some v else none)
    lacked true a v empty = rw (empty refl)
    lacked false a v empty = sym (or_else-none a)

    assigned-null :
        (b : Bool) (config : Json) (snake : Text) (v : Json)
        → IsObject config
        → values.get_field config snake ≡ none
        → Merged
            (if b then some config else values.set_field config snake v)
            config
            (λ key. if bytes_eq snake key then (if b then none else some v) else none)
    assigned-null true config snake v object missing =
        kept config (λ key. if bytes_eq snake key then none else none) object
          (λ key. sym (
            ap (or_else (values.get_field config key)) (if_same (bytes_eq snake key))
            ∙ or_else-none (values.get_field config key)))
    assigned-null false config snake v object missing = (
      fields.set config snake v,
      fields.set_field-set config snake v object,
      fields.set-IsObject config snake v object,
      λ key.
          fields.get_field-set config snake v key object
          ∙ lacked (bytes_eq snake key) (values.get_field config key) v (λ same.
            ap (λ t. values.get_field config t) (sym (bytes_eq→eq snake key same)) ∙ missing),
    )

    merge_missing :
        (config : Json) (snake : Text) (value : Option Json)
        → IsObject config
        → values.get_field config snake ≡ none
        → Merged
            (assigned values config snake value)
            config
            (λ key. if bytes_eq snake key then not_null value else none)
    merge_missing config snake none object missing =
        kept config (λ key. if bytes_eq snake key then none else none) object
          (λ key. sym (
            ap (or_else (values.get_field config key)) (if_same (bytes_eq snake key))
            ∙ or_else-none (values.get_field config key)))
    merge_missing config snake (some v) object missing =
        assigned-null (values.is_null v) config snake v object missing

    merge_round :
        (config : Json) (snake : Text) (here value : Option Json)
        → IsObject config
        → values.get_field config snake ≡ here
        → Merged
            (added_if_missing values config snake here value)
            config
            (λ key. if bytes_eq snake key then not_null value else none)
    merge_round config snake none value object missing =
        merge_missing config snake value object missing
    merge_round config snake (some v) value object found =
        kept config (λ key. if bytes_eq snake key then not_null value else none) object
          (λ key. had config snake v (not_null value) key found)

    -- Merging the fork times into an object does not panic. A field that the object has keeps its
    -- value; one that it lacks has the first value of the chain configuration that a mapping to it
    -- names and that is not null, if there is one.
    pub merge_forks-added :
        (chain_config : Json) (mappings : List (Text × Text)) (config : Json)
        → IsObject config
        → (merged : Json) × (merge_forks values chain_config mappings config ≡ some merged)
          × IsObject merged
          × ((key : Text)
              → values.get_field merged key
                ≡ or_else (values.get_field config key) (added chain_config mappings key))
    unfolding merge_forks merge_fork
    merge_forks-added chain_config [] config object =
        (config, refl, object, λ key. sym (or_else-none (values.get_field config key)))
    merge_forks-added chain_config ((camel, snake) ∷ mappings) config object =
        let value = values.get_field chain_config camel in
        let (after, merge, is_object, get) =
          merge_round config snake (values.get_field config snake) value object refl in
        let (merged, rest, is_merged, get_rest) =
          merge_forks-added chain_config mappings after is_object in
        (
          merged,
          ap (λ o. o >>= merge_forks values chain_config mappings) merge ∙ rest,
          is_merged,
          λ key.
              get_rest key
              ∙ ap (λ a. or_else a (added chain_config mappings key)) (get key)
              ∙ or_else_if (bytes_eq snake key) (values.get_field config key) (not_null value)
                  (added chain_config mappings key),
        )
