-- ===== src/Common/Words.antt =====
-- `u64` arithmetic. A debug build panics where an operation overflows, a release build wraps.
use Prim.Native.Nat.{ℕ, ◌+◌, ◌-◌, ◌%◌, ◌^◌, ◌<◌, ◌≤◌}
use mathlib.Core.Path.{◌≡◌}
use native.Mathlib.Omega.{arith}
use open_zk.Common.Tests.{ltb, leb, if◌then◌else◌}
use open_zk.Common.Outcome.{Outcome, returned, panicked}

pub data Profile : Type 0 where
  debug release : Profile

abbrev pub u64_mod : ℕ
u64_mod = 2 ^ 64

abbrev pub u32_mod : ℕ
u32_mod = 2 ^ 32

abbrev pub IsU64 : ℕ → Type 0
IsU64 n = n < u64_mod

abbrev pub overflowed : Profile → ℕ → Outcome ℕ
overflowed debug wrapped = panicked
overflowed release wrapped = returned wrapped

unfoldable pub add_u64 : Profile → ℕ → ℕ → Outcome ℕ
add_u64 p a b = if ltb (a + b) u64_mod then returned (a + b) else overflowed p ((a + b) % u64_mod)

unfoldable pub sub_u64 : Profile → ℕ → ℕ → Outcome ℕ
sub_u64 p a b = if leb b a then returned (a - b) else overflowed p ((a + u64_mod - b) % u64_mod)

pub add_u64-returned : (p : Profile) (a b : ℕ) → a + b < u64_mod → add_u64 p a b ≡ returned (a + b)
unfolding add_u64
add_u64-returned p a b h = ground arith

pub sub_u64-returned : (p : Profile) (a b : ℕ) → b ≤ a → sub_u64 p a b ≡ returned (a - b)
unfolding sub_u64
sub_u64-returned p a b h = ground arith

pub add_u64-release : (a b : ℕ) → (s : ℕ) × (add_u64 release a b ≡ returned s) × (s < u64_mod)
unfolding add_u64
add_u64-release a b = ((a + b) % u64_mod, ground arith, omega arith)

pub sub_u64-release :
    (a b : ℕ) → IsU64 a → (s : ℕ) × (sub_u64 release a b ≡ returned s) × (s < u64_mod)
unfolding sub_u64
sub_u64-release a b h =
    (if leb b a then a - b else (a + u64_mod - b) % u64_mod, ground arith, ground arith)
