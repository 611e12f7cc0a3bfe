-- ===== src/Common/Parse.antt =====
-- `str::parse::<u128>()` on the bytes of a text.
pub mod Decimal
use open_zk.Common.Format.{Text, codes}
use open_zk.Common.Tests.{ltb, leb, ◌==◌, if◌then◌else◌}
use open_zk.Common.Outcome.{Result, ok, err}
use Prim.Native.Nat.{ℕ, ◌+◌, ◌-◌, ◌*◌}
use mathlib.Core.Bool.{Bool, ◌&&◌, not}
use mathlib.Core.List.{List, [], ◌∷◌}

-- 2 ^ 128
abbrev pub u128_mod : ℕ
u128_mod = 340282366920938463463374607431768211456

-- The messages of `ParseIntError`.
abbrev pub empty_text : Text
empty_text = codes "cannot parse integer from empty string"

abbrev pub invalid_digit : Text
invalid_digit = codes "invalid digit found in string"

abbrev pub too_large : Text
too_large = codes "number too large to fit in target type"

abbrev pub is_digit : ℕ → Bool
is_digit c = leb 48 c && leb c 57

-- The loop over the digits: a character that is no digit is reported before a number too large.
unfoldable pub parse_digits : ℕ → Text → Result Text ℕ
parse_digits value [] = ok value
parse_digits value (c ∷ s) =
    let rest = parse_digits (value * 10 + (c - 48)) s in
    if is_digit c
    then (if ltb (value * 10 + (c - 48)) u128_mod then rest else err too_large)
    else err invalid_digit

-- A leading `+` is taken off, where something stands behind it.
abbrev pub without_plus : Text → Text
without_plus [] = []
without_plus (c ∷ []) = c ∷ []
without_plus (c ∷ d ∷ s) = if c == 43 then d ∷ s else c ∷ d ∷ s

unfoldable pub parse_u128 : Text → Result Text ℕ
unfolding parse_digits
parse_u128 [] = err empty_text
parse_u128 (c ∷ s) = parse_digits 0 (without_plus (c ∷ s))
