-- ===== src/Common/Maps.antt =====
-- Maps from byte strings, as lists of entries in the order of their keys.
use mathlib.Core.Path.{◌≡◌, refl, sym, ap, ◌∙◌}
use mathlib.Core.Logic.{inl, inr}
use mathlib.Core.Bool.{Bool, true, false, true≢false, ◌||◌, ◌&&◌}
use mathlib.Core.Option.{Option, none, some}
use mathlib.Core.List.{List, [], ◌∷◌}
use Prim.Native.Nat.{ℕ}
use open_zk.Common.Tests.{ltb, ◌==◌, if◌then◌else◌, bytes_eq, bytes_eq→eq, eq→bytes_eq, Bool-cases}

abbrev pub Map : Type 0
Map = List (List ℕ × List ℕ)

-- The order of `[u8; 32]`.
unfoldable pub bytes_lt : List ℕ → List ℕ → Bool
bytes_lt [] [] = false
bytes_lt [] (y ∷ ys) = true
bytes_lt (x ∷ xs) [] = false
bytes_lt (x ∷ xs) (y ∷ ys) = ltb x y || x == y && bytes_lt xs ys

unfoldable pub lookup : Map → List ℕ → Option (List ℕ)
lookup [] key = none
lookup ((k, v) ∷ entries) key =
    let rest = lookup entries key in if bytes_eq k key then some v else rest

unfoldable pub insert : List ℕ → List ℕ → Map → Map
unfolding bytes_lt
insert key value [] = (key, value) ∷ []
insert key value ((k, v) ∷ entries) =
    let rest = insert key value entries in
    if bytes_eq k key
    then (key, value) ∷ entries
    else if bytes_lt key k
    then (key, value) ∷ (k, v) ∷ entries
    else (k, v) ∷ rest

if_if :
    (b : Bool) (x y z : Option (List ℕ))
    → (if b then x else if b then y else z) ≡ (if b then x else z)
if_if true x y z = refl
if_if false x y z = refl

-- Of two keys that differ, `other` is at most one.
if_swap :
    (b c : Bool) (x y z : Option (List ℕ))
    → b && c ≡ false
    → (if b then x else if c then y else z) ≡ (if c then y else if b then x else z)
if_swap true true x y z h = cc
if_swap true false x y z h = refl
if_swap false c x y z h = refl

both_false :
    (k key other : List ℕ) → bytes_eq k key ≡ false → bytes_eq k other && bytes_eq key other ≡ false
both_false k key other differ = elim (Bool-cases (bytes_eq k other)) [
  | inr no_k ↦ rw (no_k)
  | inl at_k ↦ elim (Bool-cases (bytes_eq key other)) [
    | inr no_key ↦ rw (at_k, no_key)
    | inl at_key ↦
        let e : k ≡ key = bytes_eq→eq k other at_k ∙ sym (bytes_eq→eq key other at_key) in
        absurd (true≢false (sym (eq→bytes_eq k key e) ∙ differ))
  ]
]

-- A key that was inserted is found with its value, and the others as before.
pub lookup-insert :
    (entries : Map) (key value other : List ℕ)
    → lookup (insert key value entries) other
      ≡ (if bytes_eq key other then some value else lookup entries other)
unfolding lookup insert
lookup-insert [] key value other = refl
lookup-insert ((k, v) ∷ entries) key value other = elim (Bool-cases (bytes_eq k key)) [
  | inl same ↦
      let e = bytes_eq→eq k key same in
      rw (same, ap (λ t. bytes_eq t other) e)
        (sym (if_if (bytes_eq key other) (some value) (some v) (lookup entries other)))
  | inr differ ↦ elim (Bool-cases (bytes_lt key k)) [
    | inl before ↦ rw (differ, before)
    | inr behind ↦
        rw (differ, behind, lookup-insert entries key value other)
          (if_swap (bytes_eq k other) (bytes_eq key other) _ _ _ (both_false k key other differ))
  ]
]
