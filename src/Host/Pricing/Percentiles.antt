-- ===== src/Host/Pricing/Percentiles.antt =====
-- The names of the percentiles.
use open_zk.Common.{
  ◌≡◌, refl, ◌↔◌, ap, ◌∙◌, bytes_eq, bytes_eq→eq, Bool, true, false, if◌then◌else◌, ◌⊎◌, inl, inr,
  Option, some, List, [], ◌∷◌, Text, All,
}
use open_zk.Common.Maybe.{some_inj}
use open_zk.Host.Pricing.{
  Percentile, p5, p10, p25, p50, p75, p90, p95, p99, field_name, to_lowercase, parse_arms, arms,
  parse,
}

if_named :
    (b : Bool) (q p : Percentile) (rest : Option Percentile)
    → (if b then some q else rest) ≡ some p
    → ((b ≡ true) × (q ≡ p)) ⊎ (rest ≡ some p)
if_named true q p rest h = inl (refl, some_inj h)
if_named false q p rest h = inr h

parse_arms-named :
    (s : Text) (p : Percentile) (named : List (Text × Percentile))
    → All (λ arm. arm.0 ≡ field_name arm.1) named
    → parse_arms s named ≡ some p
    → s ≡ field_name p
unfolding parse_arms
parse_arms-named s p [] names h = cc
parse_arms-named s p ((name, q) ∷ named) (here, names) h =
    elim (if_named (bytes_eq s name) q p (parse_arms s named) h) [
      | inl (same, chosen) ↦ bytes_eq→eq s name same ∙ here ∙ ap field_name chosen
      | inr later ↦ parse_arms-named s p named names later
    ]

parse_arms-field_name : (p : Percentile) → parse_arms (field_name p) arms ≡ some p
unfolding parse_arms field_name bytes_eq
parse_arms-field_name p5 = refl
parse_arms-field_name p10 = refl
parse_arms-field_name p25 = refl
parse_arms-field_name p50 = refl
parse_arms-field_name p75 = refl
parse_arms-field_name p90 = refl
parse_arms-field_name p95 = refl
parse_arms-field_name p99 = refl

arms-named : All (λ arm. arm.0 ≡ field_name arm.1) arms
unfolding field_name
arms-named = (refl, (refl, (refl, (refl, (refl, (refl, (refl, (refl, tt))))))))

-- A text is read as a percentile exactly if it is the percentile's field name, in any case of its
-- ASCII letters.
pub parse-field_name :
    (s : Text) (p : Percentile) → (parse s ≡ some p) ↔ (to_lowercase s ≡ field_name p)
unfolding parse
parse-field_name s p = (
  parse_arms-named (to_lowercase s) p arms arms-named,
  λ e. ap (λ t. parse_arms t arms) e ∙ parse_arms-field_name p,
)
