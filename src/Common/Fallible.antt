-- ===== src/Common/Fallible.antt =====
-- The chaining of `?` on Rust's `Result`.
use mathlib.Core.Path.{◌≡◌, refl}
use open_zk.Common.Outcome.{Result, ok, err}

infixl 5 ◌>>=◌
abbrev pub ◌>>=◌ {ℓ κ ν} :
    {E : Type ℓ} {A : Type κ} {B : Type ν} → Result E A → (A → Result E B) → Result E B
err failure >>= next = err failure
ok value >>= next = next value

module _ {ℓ κ ν} {E : Type ℓ} {A : Type κ} {B : Type ν} where
  -- Inversion of a chain that succeeded.
  pub >>=-eq-ok :
      (first : Result E A) (next : A → Result E B) {last : B}
      → (first >>= next) ≡ ok last
      → (value : A) × (first ≡ ok value) × (next value ≡ ok last)
  >>=-eq-ok (err failure) next h = cc
  >>=-eq-ok (ok value) next h = (value, refl, h)

pub ok-inj {ℓ κ} : {E : Type ℓ} {A : Type κ} {a b : A} → Path (Result E A) (ok a) (ok b) → a ≡ b
ok-inj h = cc
