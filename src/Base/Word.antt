-- ===== src/Base/Word.antt =====
-- uint64: a number below 2 ^ 64, with the wrap-around of `+` written out.
use Prim.Native.Nat.{ℕ, ◌+◌, ◌-◌, ◌%◌, ◌^◌, ◌≤◌}
use mathlib.Core.Path.{◌≡◌}
use native.Mathlib.Omega.{arith}

-- `^uint64(0)`
abbrev pub max_u64 : ℕ
max_u64 = 2 ^ 64 - 1

-- `a + b` on uint64
unfoldable pub add_u64 : ℕ → ℕ → ℕ
add_u64 a b = (a + b) % 2 ^ 64

-- Behind the guard `a > ^uint64(0) - b` that the code writes, the sum does not wrap.
pub add_u64-eq : (a b : ℕ) → a + b ≤ max_u64 → add_u64 a b ≡ a + b
unfolding add_u64
add_u64-eq a b h = omega arith

pub add_u64-le : (a b : ℕ) → add_u64 a b ≤ max_u64
unfolding add_u64
add_u64-le a b = omega arith
