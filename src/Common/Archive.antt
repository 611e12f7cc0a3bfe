-- ===== src/Common/Archive.antt =====
-- A form of maps as bytes that can be read back: an instance of what the models ask of an archive.
use Prim.Native.Nat.{ℕ, zero, suc, ◌≤◌}
use mathlib.Core.Path.{◌≡◌, refl, ap, ◌∙◌}
use mathlib.Core.Option.{Option, none, some}
use mathlib.Core.List.{List, [], ◌∷◌, ◌++◌}
use native.Mathlib.Omega.{arith}
use open_zk.Common.Lists.{length, take, drop, length-append, take-append_length, drop-append_length}
use open_zk.Common.Maps.{Map}

abbrev Bytes : Type 0
Bytes = List ℕ

-- An archive: each key and each value behind its length.
unfoldable pub archive : Map → Bytes
archive [] = []
archive ((k, v) ∷ entries) = length k ∷ k ++ (length v ∷ v ++ archive entries)

push_entry : Bytes × Bytes → Option Map → Option Map
push_entry entry none = none
push_entry entry (some entries) = some (entry ∷ entries)

parse_value : (Bytes → Option Map) → Bytes → Bytes → Option Map
unfolding push_entry
parse_value next key [] = none
parse_value next key (m ∷ behind) = push_entry (key, take m behind) (next (drop m behind))

parse : ℕ → Bytes → Option Map
unfolding parse_value
parse fuel [] = some []
parse zero (n ∷ rest) = none
parse (suc fuel) (n ∷ rest) = parse_value (parse fuel) (take n rest) (drop n rest)

pub unarchive : Bytes → Option Map
unarchive bytes = parse (length bytes) bytes

parse-archive :
    (entries : Map) (fuel : ℕ) → length entries ≤ fuel → parse fuel (archive entries) ≡ some entries
unfolding parse archive parse_value push_entry
parse-archive [] fuel h = refl
parse-archive ((k, v) ∷ entries) zero h = absurd (omega arith)
parse-archive ((k, v) ∷ entries) (suc fuel) h =
    let behind = length v ∷ (v ++ archive entries) in
    ap (λ t. parse_value (parse fuel) t (drop (length k) (k ++ behind)))
      (take-append_length k behind)
    ∙ ap (parse_value (parse fuel) k) (drop-append_length k behind)
    ∙ ap (λ t. push_entry (k, t) (parse fuel (drop (length v) (v ++ archive entries))))
        (take-append_length v (archive entries))
    ∙ ap (λ t. push_entry (k, v) (parse fuel t)) (drop-append_length v (archive entries))
    ∙ ap (push_entry (k, v)) (parse-archive entries fuel (omega arith))

length-archive : (entries : Map) → length entries ≤ length (archive entries)
unfolding archive
length-archive [] = omega arith
length-archive ((k, v) ∷ entries) = omega (
  arith,
  length-archive entries,
  length-append k (length v ∷ v ++ archive entries),
  length-append v (archive entries),
)

pub unarchive-archive : (entries : Map) → unarchive (archive entries) ≡ some entries
unfolding unarchive
unarchive-archive entries = parse-archive entries _ (length-archive entries)
