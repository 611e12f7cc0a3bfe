-- ===== src/Common/Outcome.antt =====
-- How a computation ends: `Result` is Rust's, and `Outcome` is that of code that may panic or loop.
use mathlib.Core.Path.{◌≡◌, refl}
use mathlib.Core.Bool.{Bool, true, false}
use mathlib.Core.Logic.{◌⊎◌, inl, inr}
use open_zk.Common.Tests.{if◌then◌else◌}

pub data Result {ℓ κ} (E : Type ℓ) (A : Type κ) : Type (ℓ ⊔ κ) where
  ok : A → Result E A
  err : E → Result E A

-- `out_of_fuel` is no Rust value: the loop was not finished within the rounds that were given.
pub data Outcome {ℓ} (A : Type ℓ) : Type ℓ where
  returned : A → Outcome A
  panicked : Outcome A
  out_of_fuel : Outcome A

infixl 5 ◌>>=◌ ◌>>◌
abbrev pub ◌>>=◌ {ℓ κ} : {A : Type ℓ} {B : Type κ} → Outcome A → (A → Outcome B) → Outcome B
returned a >>= f = f a
panicked >>= f = panicked
out_of_fuel >>= f = out_of_fuel

-- `assert!` and `assert_eq!`
abbrev pub assert : Bool → Outcome (Unit {0})
assert true = returned tt
assert false = panicked

abbrev pub ◌>>◌ {ℓ} : {B : Type ℓ} → Outcome (Unit {0}) → Outcome B → Outcome B
m >> k = m >>= λ _. k

-- Inversion of a bind that returned.
pub >>=-eq-returned {ℓ κ} :
    {A : Type ℓ} {B : Type κ} (first : Outcome A) (next : A → Outcome B) {last : B}
    → (first >>= next) ≡ returned last
    → (value : A) × (first ≡ returned value) × (next value ≡ returned last)
>>=-eq-returned panicked next h = cc
>>=-eq-returned out_of_fuel next h = cc
>>=-eq-returned (returned value) next h = (value, refl, h)

pub returned-inj {ℓ} : {A : Type ℓ} {a b : A} → returned a ≡ returned b → a ≡ b
returned-inj h = cc

-- Inversion of an assertion that held.
pub assert-returned : (b : Bool) → assert b ≡ returned tt → b ≡ true
assert-returned true h = refl
assert-returned false h = cc

-- Inversion of a branching that returned.
pub if_returned {ℓ} :
    {A : Type ℓ} (b : Bool) (x y : Outcome A) {a : A}
    → (if b then x else y) ≡ returned a
    → ((b ≡ true) × (x ≡ returned a)) ⊎ ((b ≡ false) × (y ≡ returned a))
if_returned true x y h = inl (refl, h)
if_returned false x y h = inr (refl, h)
