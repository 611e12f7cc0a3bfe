-- ===== src/Host/Pricing/Succinct/Sorting.antt =====
-- The sorting of crates/host/src/pricing/succinct.rs: it gives the same prices in ascending order.
use open_zk.Common.{
  suc, ◌≡◌, refl, ap, ◌∙◌, true, false, Bool-cases, inl, inr, some, List, [], ◌∷◌, length, All,
}
use mathlib.Core.List.{Perm}
use mathlib.Core.List.Perm
use open_zk.Host.Pricing.Provider.{Double}
use open_zk.Host.Pricing.Succinct.{is_greater, insert_sorted, sort_prices, halfway}

module _ {F : Type 0} (double : Double F) where
  -- `a` is not greater than `b`.
  abbrev pub AtMost : F → F → Type 0
  AtMost a b = is_greater double a b ≡ false

  -- What holds of the floating-point numbers that are not NaN, and of two that are not so large that
  -- their sum overflows: they are ordered, and the half of the sum lies between the two.
  pub record IsOrdered (Number : F → Type 0) : Type 0 where
    pub flips : (a b : F) → Number a → Number b → is_greater double a b ≡ true → AtMost b a
    pub trans : (a b c : F) → Number a → Number b → Number c → AtMost a b → AtMost b c → AtMost a c
    pub between :
        (a b : F)
        → Number a
        → Number b
        → AtMost a b
        → (m : F) × (halfway double (some a) (some b) ≡ some m) × Number m × AtMost a m × AtMost m b

  abbrev pub Sorted : List F → Type 0
  Sorted [] = Unit {0}
  Sorted (x ∷ xs) = All (AtMost x) xs × Sorted xs

  insert_sorted-All :
      (P : F → Type 0) (x : F) (ys : List F) → P x → All P ys → All P (insert_sorted double x ys)
  unfolding insert_sorted
  insert_sorted-All P x [] px all = (px, tt)
  insert_sorted-All P x (y ∷ ys) px (py, all) = elim (Bool-cases (is_greater double x y)) [
    | inl more ↦ rw (more) (py, insert_sorted-All P x ys px all)
    | inr most ↦ rw (most) (px, (py, all))
  ]

  insert_sorted-Perm : (x : F) (ys : List F) → Perm (insert_sorted double x ys) (x ∷ ys)
  unfolding insert_sorted
  insert_sorted-Perm x [] = Perm.rfl
  insert_sorted-Perm x (y ∷ ys) = elim (Bool-cases (is_greater double x y)) [
    | inl more ↦ rw (more) (Perm.trans (Perm.cons y (insert_sorted-Perm x ys)) (Perm.swap x y ys))
    | inr most ↦ rw (most) Perm.rfl
  ]

  length-insert_sorted :
      (x : F) (ys : List F) → length (insert_sorted double x ys) ≡ suc (length ys)
  unfolding insert_sorted
  length-insert_sorted x [] = refl
  length-insert_sorted x (y ∷ ys) = elim (Bool-cases (is_greater double x y)) [
    | inl more ↦ rw (more) (ap suc (length-insert_sorted x ys))
    | inr most ↦ rw (most) refl
  ]

  pub length-sort_prices : (xs : List F) → length (sort_prices double xs) ≡ length xs
  unfolding sort_prices
  length-sort_prices [] = refl
  length-sort_prices (x ∷ xs) =
      length-insert_sorted x (sort_prices double xs) ∙ ap suc (length-sort_prices xs)

  pub sort_prices-Perm : (xs : List F) → Perm (sort_prices double xs) xs
  unfolding sort_prices
  sort_prices-Perm [] = Perm.rfl
  sort_prices-Perm (x ∷ xs) =
      Perm.trans (insert_sorted-Perm x (sort_prices double xs)) (Perm.cons x (sort_prices-Perm xs))

  pub sort_prices-All : (P : F → Type 0) (xs : List F) → All P xs → All P (sort_prices double xs)
  unfolding sort_prices
  sort_prices-All P [] all = tt
  sort_prices-All P (x ∷ xs) (px, all) =
      insert_sorted-All P x (sort_prices double xs) px (sort_prices-All P xs all)

  module _ (Number : F → Type 0) (ordered : IsOrdered Number) where
    pub reflexive : (a : F) → Number a → AtMost a a
    reflexive a number = elim (Bool-cases (is_greater double a a)) [
      | inl more ↦ ordered.flips a a number number more
      | inr most ↦ most
    ]

    pub AtMost-All :
        (x y : F) (ys : List F)
        → Number x
        → Number y
        → All Number ys
        → AtMost x y
        → All (AtMost y) ys
        → All (AtMost x) ys
    AtMost-All x y [] nx ny numbers le all = tt
    AtMost-All x y (z ∷ ys) nx ny (nz, numbers) le (here, all) =
        (ordered.trans x y z nx ny nz le here, AtMost-All x y ys nx ny numbers le all)

    insert_sorted-Sorted :
        (x : F) (ys : List F)
        → Number x
        → All Number ys
        → Sorted ys
        → Sorted (insert_sorted double x ys)
    unfolding insert_sorted
    insert_sorted-Sorted x [] nx numbers sorted = (tt, tt)
    insert_sorted-Sorted x (y ∷ ys) nx (ny, numbers) (least, sorted) =
        elim (Bool-cases (is_greater double x y)) [
          | inl more ↦ rw (more) (
            insert_sorted-All (AtMost y) x ys (ordered.flips x y nx ny more) least,
            insert_sorted-Sorted x ys nx numbers sorted,
          )
          | inr most ↦
              rw (most) ((most, AtMost-All x y ys nx ny numbers most least), (least, sorted))
        ]

    pub sort_prices-Sorted : (xs : List F) → All Number xs → Sorted (sort_prices double xs)
    unfolding sort_prices
    sort_prices-Sorted [] numbers = tt
    sort_prices-Sorted (x ∷ xs) (nx, numbers) =
        insert_sorted-Sorted x (sort_prices double xs) nx (sort_prices-All Number xs numbers)
          (sort_prices-Sorted xs numbers)
