-- ===== src/Common/BigEndian.antt =====
-- Numbers as big-endian bytes.
use Prim.Native.Nat.{ℕ, zero, suc, ◌+◌, ◌*◌, ◌/◌, ◌%◌, ◌^◌, ◌<◌}
use mathlib.Core.Path.{◌≡◌, refl, ap, ◌∙◌}
use mathlib.Core.List.{List, [], ◌∷◌, ◌++◌}
use native.Mathlib.Nat.{pow-suc}
use native.Mathlib.Omega.{arith}
use open_zk.Common.Lists.{length, length-append}

abbrev Bytes : Type 0
Bytes = List ℕ

-- The lowest `k` bytes of `n`, highest first.
unfoldable pub be_bytes : ℕ → ℕ → Bytes
be_bytes zero n = []
be_bytes (suc k) n = be_bytes k (n / 256) ++ (n % 256) ∷ []

unfoldable pub be_value : ℕ → Bytes → ℕ
be_value acc [] = acc
be_value acc (b ∷ bs) = be_value (acc * 256 + b) bs

be_value-append :
    (acc : ℕ) (xs : Bytes) (b : ℕ) → be_value acc (xs ++ b ∷ []) ≡ be_value acc xs * 256 + b
unfolding be_value
be_value-append acc [] b = refl
be_value-append acc (x ∷ xs) b = be_value-append (acc * 256 + x) xs b

pub be_value-be_bytes :
    (k n acc : ℕ) → n < 256 ^ k → be_value acc (be_bytes k n) ≡ acc * 256 ^ k + n
unfolding be_value be_bytes
be_value-be_bytes zero n acc h = omega arith
be_value-be_bytes (suc k) n acc h =
    be_value-append acc (be_bytes k (n / 256)) (n % 256)
    ∙ rw (be_value-be_bytes k (n / 256) acc (omega (arith, pow-suc 256 k)))
        (omega (arith, ap (λ (t : ℕ). acc * t) (pow-suc 256 k)))

pub length-be_bytes : (k n : ℕ) → length (be_bytes k n) ≡ k
unfolding be_bytes
length-be_bytes zero n = refl
length-be_bytes (suc k) n =
    length-append (be_bytes k (n / 256)) _ ∙ omega (arith, length-be_bytes k (n / 256))
