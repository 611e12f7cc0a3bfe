-- ===== src/Common/Parse/Decimal.antt =====
-- The decimal text of a number is read as that number.
use Prim.Native.Nat.{ℕ, zero, suc, ◌+◌, ◌-◌, ◌*◌, ◌/◌, ◌%◌, ◌≤◌, ◌<◌}
use native.Mathlib.Omega.{arith}
use mathlib.Core.Path.{◌≡◌, refl, ap, ◌∙◌}
use mathlib.Core.Bool.{Bool, true, false}
use mathlib.Core.Logic.{inl, inr}
use mathlib.Core.List.{[], ◌∷◌, ◌++◌}
use open_zk.Common.Format.{Text, decimal_loop, decimal}
use open_zk.Common.Tests.{ltb, ◌==◌, if◌then◌else◌, lt→ltb, Bool-cases}
use open_zk.Common.Outcome.{Result, ok, err}
use open_zk.Common.Parse.{u128_mod, is_digit, invalid_digit, too_large, parse_digits, parse_u128}

-- One more digit behind what was read.
abbrev step : ℕ → Result Text ℕ → Result Text ℕ
step c (err e) = err e
step c (ok value) =
    if is_digit c
    then (if ltb (value * 10 + (c - 48)) u128_mod
        then ok (value * 10 + (c - 48))
        else err too_large)
    else err invalid_digit

step_if :
    (b d : Bool) (c : ℕ) (r : Result Text ℕ) (e f : Text)
    → (if b then (if d then step c r else err e) else err f)
      ≡ step c (if b then (if d then r else err e) else err f)
step_if true true c r e f = refl
step_if true false c r e f = refl
step_if false d c r e f = refl

parse_digits-append :
    (value : ℕ) (s : Text) (c : ℕ)
    → parse_digits value (s ++ c ∷ []) ≡ step c (parse_digits value s)
unfolding parse_digits
parse_digits-append value [] c = refl
parse_digits-append value (d ∷ s) c =
    ap
      (λ r.
        if is_digit d
        then (if ltb (value * 10 + (d - 48)) u128_mod then r else err too_large)
        else err invalid_digit)
      (parse_digits-append (value * 10 + (d - 48)) s c)
    ∙ step_if (is_digit d) (ltb (value * 10 + (d - 48)) u128_mod) c _ too_large invalid_digit

step_digit :
    (value d : ℕ)
    → d < 10
    → value * 10 + d < u128_mod
    → step (48 + d) (ok value) ≡ ok (value * 10 + d)
step_digit value d small room =
    let digit : is_digit (48 + d) ≡ true = ground arith in
    let same : value * 10 + (48 + d - 48) ≡ value * 10 + d = omega arith in
    rw (digit, same, lt→ltb (value * 10 + d) u128_mod room)

parse_digits-decimal_loop :
    (fuel n : ℕ) → n < fuel → n < u128_mod → parse_digits 0 (decimal_loop fuel n) ≡ ok n
unfolding decimal_loop parse_digits
parse_digits-decimal_loop zero n enough room = absurd (omega arith)
parse_digits-decimal_loop (suc fuel) n enough room = elim (Bool-cases (ltb n 10)) [
  | inl one ↦ rw (one) (step_digit 0 n (ground arith) (omega arith) ∙ ap ok (omega arith))
  | inr more ↦
      let big : 10 ≤ n = ground arith in
      let front = parse_digits-decimal_loop fuel (n / 10) (omega arith) (omega arith) in
      ap
        (λ b.
          parse_digits 0
            (if b then (48 + n) ∷ [] else decimal_loop fuel (n / 10) ++ (48 + n % 10) ∷ []))
        more
      ∙ parse_digits-append 0 (decimal_loop fuel (n / 10)) (48 + n % 10)
      ∙ ap (step (48 + n % 10)) front
      ∙ step_digit (n / 10) (n % 10) (omega arith) (omega arith)
      ∙ ap ok (omega arith)
]

-- A text whose first character is a digit or stands behind the digits.
abbrev Starts : Text → Type 0
Starts [] = 1 ≤ 0
Starts (c ∷ s) = 48 ≤ c

Starts-append : (s t : Text) → Starts s → Starts (s ++ t)
Starts-append [] t starts = absurd (omega arith)
Starts-append (c ∷ s) t starts = starts

decimal_loop-Starts : (fuel n : ℕ) → n < fuel → Starts (decimal_loop fuel n)
unfolding decimal_loop
decimal_loop-Starts zero n enough = absurd (omega arith)
decimal_loop-Starts (suc fuel) n enough = elim (Bool-cases (ltb n 10)) [
  | inl one ↦ rw (one) (omega arith)
  | inr more ↦
      let big : 10 ≤ n = ground arith in
      rw (more) (
        Starts-append (decimal_loop fuel (n / 10)) ((48 + n % 10) ∷ [])
          (decimal_loop-Starts fuel (n / 10) (omega arith)))
]

parse_u128-Starts : (s : Text) → Starts s → parse_u128 s ≡ parse_digits 0 s
unfolding parse_u128
parse_u128-Starts [] starts = absurd (omega arith)
parse_u128-Starts (c ∷ []) starts = refl
parse_u128-Starts (c ∷ d ∷ s) starts =
    let no_plus : (c == 43) ≡ false = ground arith in
    ap (λ b. parse_digits 0 (if b then d ∷ s else c ∷ d ∷ s)) no_plus

-- The decimal text of a number below 2 ^ 128 is read as that number.
pub parse_u128-decimal : (n : ℕ) → n < u128_mod → parse_u128 (decimal n) ≡ ok n
unfolding decimal
parse_u128-decimal n room =
    parse_u128-Starts (decimal_loop (suc n) n) (decimal_loop-Starts (suc n) n (omega arith))
    ∙ parse_digits-decimal_loop (suc n) n (omega arith) room
