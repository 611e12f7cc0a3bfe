-- ===== src/Host/Pricing/Whole.antt =====
-- Whole numbers in place of floating-point ones: they meet what the models ask of an order.
use open_zk.Common.{ℕ, ◌+◌, ◌*◌, ◌/◌, ◌≤◌, ltb, ◌≡◌, refl, true, if◌then◌else◌, some, arith}
use open_zk.Host.Pricing.Provider.{less, equal, greater, Double}
use open_zk.Host.Pricing.Succinct.{is_greater}
use open_zk.Host.Pricing.Succinct.Sorting.{AtMost, IsOrdered}

abbrev pub whole : Double ℕ
whole = record {
  literal = λ n d. n / d;
  of_int = λ n. n;
  times = λ a b. a * b;
  over = λ a b. a / b;
  plus = λ a b. a + b;
  partial_cmp = λ a b. some (if ltb b a then greater else if ltb a b then less else equal);
}

abbrev pub Any : ℕ → Type 0
Any n = Unit {0}

AtMost→le : (a b : ℕ) → AtMost whole a b → a ≤ b
AtMost→le a b h = ground arith

le→AtMost : (a b : ℕ) → a ≤ b → AtMost whole a b
le→AtMost a b h = ground arith

greater→le : (a b : ℕ) → is_greater whole a b ≡ true → b ≤ a
greater→le a b h = ground arith

pub whole-IsOrdered : IsOrdered whole Any
whole-IsOrdered = record {
  flips = λ a b x y more. le→AtMost b a (greater→le a b more);
  trans = λ a b c x y z le le2.
      let first = AtMost→le a b le in let second = AtMost→le b c le2 in le→AtMost a c (omega arith);
  between = λ a b x y le.
      let ordered = AtMost→le a b le in
      (
        (a + b) / 2,
        refl,
        tt,
        le→AtMost a ((a + b) / 2) (omega arith),
        le→AtMost ((a + b) / 2) b (omega arith),
      );
}
