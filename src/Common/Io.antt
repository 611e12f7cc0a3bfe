-- ===== src/Common/Io.antt =====
-- Calls of the outside, which may fail and may change the world: functions of a world.
use mathlib.Core.Path.{◌≡◌, refl}
use mathlib.Core.Option.{Option, none, some}
use open_zk.Common.Outcome.{Result, ok, err}

abbrev pub Io : Type 0 → Type 0 → Type 0 → Type 0
Io W E A = W → Result E A × W

module _ {W E A B : Type 0} where
  abbrev pub after : (A → Io W E B) → Result E A × W → Result E B × W
  after next (err e, w) = (err e, w)
  after next (ok value, w) = next value w

  infixl 5 ◌>>=◌
  abbrev pub ◌>>=◌ : Io W E A → (A → Io W E B) → Io W E B
  ◌>>=◌ first next w = after next (first w)

module _ {W E A : Type 0} where
  abbrev pub pure : A → Io W E A
  pure value w = (ok value, w)

  abbrev pub fail : E → Io W E A
  fail e w = (err e, w)

  -- `.map_err(..)`
  abbrev pub map_err : {F : Type 0} → (F → E) → Result F A × W → Result E A × W
  map_err f (err e, w) = (err (f e), w)
  map_err f (ok value, w) = (ok value, w)

  -- `.ok_or_else(..)`
  abbrev pub ok_or_fail : Option A → E → Io W E A
  ok_or_fail none e w = (err e, w)
  ok_or_fail (some value) e w = (ok value, w)

module _ {W E A B : Type 0} where
  -- Inversion of a call that succeeded after another.
  pub after-eq-ok :
      (next : A → Io W E B) (r : Result E A × W) {last : B} {w : W}
      → after next r ≡ (ok last, w)
      → (value : A) × (v : W) × (r ≡ (ok value, v)) × (next value v ≡ (ok last, w))
  after-eq-ok next (err e, v) h = cc
  after-eq-ok next (ok value, v) h = (value, v, refl, h)

  -- The same for a call whose error is replaced, for a missing value, and for a result that does not
  -- depend on the world.
  pub after-map_err :
      {F : Type 0} (f : F → E) (next : A → Io W E B) (r : Result F A × W) {last : B} {w : W}
      → after next (map_err f r) ≡ (ok last, w)
      → (value : A) × (v : W) × (r ≡ (ok value, v)) × (next value v ≡ (ok last, w))
  after-map_err f next (err e, v) h = cc
  after-map_err f next (ok value, v) h = (value, v, refl, h)

  pub after-ok_or_fail :
      (o : Option A) (e : E) (next : A → Io W E B) (u : W) {last : B} {w : W}
      → after next (ok_or_fail o e u) ≡ (ok last, w)
      → (value : A) × (o ≡ some value) × (next value u ≡ (ok last, w))
  after-ok_or_fail none e next u h = cc
  after-ok_or_fail (some value) e next u h = (value, refl, h)

  pub after-result :
      {F : Type 0} (f : F → E) (next : A → Io W E B) (r : Result F A) (u : W) {last : B} {w : W}
      → after next (map_err f (r, u)) ≡ (ok last, w)
      → (value : A) × (r ≡ ok value) × (next value u ≡ (ok last, w))
  after-result f next (err e) u h = cc
  after-result f next (ok value) u h = (value, refl, h)
