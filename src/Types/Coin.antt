-- ===== src/Types/Coin.antt =====
-- types/coin.go: one coin.
use punnet_sdk.Base.{ℕ, ◌≤◌, Bool, ◌&&◌, not, [], length, leb, ltb, ◌==◌, max_u64}
use punnet_sdk.Base.Bytes.{Bytes, bytes_eq}

pub record Coin : Type 0 where
  pub denom : Bytes
  pub amount : ℕ

unfoldable pub new_coin : Bytes → ℕ → Coin
new_coin denom amount = record { denom = denom; amount = amount }

unfoldable pub is_valid : Coin → Bool
is_valid c = not (bytes_eq c.denom []) && leb (length c.denom) 64

unfoldable pub is_zero : Coin → Bool
is_zero c = c.amount == 0

unfoldable pub is_positive : Coin → Bool
is_positive c = ltb 0 c.amount

-- The amount is a uint64.
abbrev pub IsWord : Coin → Type 0
IsWord c = c.amount ≤ max_u64
