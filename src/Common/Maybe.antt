-- ===== src/Common/Maybe.antt =====
-- The chaining of `?` on Rust's `Option`.
use mathlib.Core.Path.{◌≡◌, refl}
use mathlib.Core.Bool.{Bool, true, false}
use mathlib.Core.Option.{Option, none, some}
use open_zk.Common.Outcome.{Result, ok, err}
use open_zk.Common.Tests.{if◌then◌else◌}

infixl 5 ◌>>=◌
abbrev pub ◌>>=◌ {ℓ κ} : {A : Type ℓ} {B : Type κ} → Option A → (A → Option B) → Option B
some a >>= f = f a
none >>= f = none

-- `unwrap_or` and `ok_or`
abbrev pub unwrap_or {ℓ} : {A : Type ℓ} → Option A → A → A
unwrap_or none d = d
unwrap_or (some a) d = a

abbrev pub ok_or {ℓ κ} : {E : Type ℓ} {A : Type κ} → Option A → E → Result E A
ok_or none e = err e
ok_or (some a) e = ok a

module _ {ℓ κ} {A : Type ℓ} {B : Type κ} where
  -- Inversion of a chain that succeeded.
  pub >>=-eq-some :
      (m : Option A) (f : A → Option B) {b : B}
      → (m >>= f) ≡ some b
      → (a : A) × (m ≡ some a) × (f a ≡ some b)
  >>=-eq-some (some a) f h = (a, refl, h)
  >>=-eq-some none f h = cc

module _ {ℓ} {A : Type ℓ} where
  -- Inversion of a guard that was passed.
  pub guarded_some :
      (b : Bool) (m : Option A) {a : A}
      → (if b then none else m) ≡ some a
      → (b ≡ false) × (m ≡ some a)
  guarded_some true m h = cc
  guarded_some false m h = (refl, h)

  pub some_inj : {a b : A} → Path (Option A) (some a) (some b) → a ≡ b
  some_inj h = cc
