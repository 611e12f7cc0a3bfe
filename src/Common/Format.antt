-- ===== src/Common/Format.antt =====
-- Text as the list of its UTF-8 bytes, and the decimal and hexadecimal forms that `format!` gives a
-- number.
use Prim.Native.Nat.{ℕ, zero, suc, ◌+◌, ◌/◌, ◌%◌}
use Prim.Native.Char.{code}
use Prim.Native.String.{String}
use mathlib.Core.List.{List, [], ◌∷◌, ◌++◌}
use open_zk.Common.Tests.{ltb, if◌then◌else◌}

abbrev pub Text : Type 0
Text = List ℕ

-- The bytes of an ASCII literal.
abbrev pub codes : String → Text
codes String.[] = []
codes (String.◌∷◌ c s) = code c ∷ codes s

-- `n + 1` rounds are enough for `n`: each takes off a digit.
unfoldable pub decimal_loop : ℕ → ℕ → Text
decimal_loop zero n = []
decimal_loop (suc fuel) n =
    let front = decimal_loop fuel (n / 10) in
    if ltb n 10 then (48 + n) ∷ [] else front ++ ((48 + n % 10) ∷ [])

unfoldable pub decimal : ℕ → Text
unfolding decimal_loop
decimal n = decimal_loop (suc n) n

-- The hexadecimal digits of `{:x}`.
abbrev pub hex_digit : ℕ → ℕ
hex_digit d = if ltb d 10 then 48 + d else 87 + d

unfoldable pub hex_loop : ℕ → ℕ → Text
hex_loop zero n = []
hex_loop (suc fuel) n =
    let front = hex_loop fuel (n / 16) in
    if ltb n 16 then hex_digit n ∷ [] else front ++ (hex_digit (n % 16) ∷ [])

unfoldable pub hex : ℕ → Text
unfolding hex_loop
hex n = hex_loop (suc n) n
