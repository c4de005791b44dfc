-- ===== src/Staking/Pool.antt =====
-- An undelegation of modules/staking/module.go, carried out by the executor of effects/executor.go.
use punnet_sdk.Base.{ℕ, refl, ◌&&◌, List, [], ◌∷◌, if◌then◌else◌}
use punnet_sdk.Base.Bytes.{Bytes, codes, bytes_eq}
use punnet_sdk.Types.AccountName
use punnet_sdk.Types.Coin
use punnet_sdk.Types.Coins
use punnet_sdk.Effects.Effect.{Effect, transfers, writes, deletes, reads, emits}
use punnet_sdk.Store.Objects
use punnet_sdk.Store.Balance.Amounts.{IsName}
use punnet_sdk.Store.Validators
use punnet_sdk.Store.Validators.{Delegation}
use punnet_sdk.Capability.Validators as ByCapability
use punnet_sdk.Staking.Messages.{Stake}
use punnet_sdk.Staking.Handlers.{
  StakingValue, validator_value, delegation_value, delegation_effect, stake_event, staking_pool,
}

-- The shares that effects leave to the delegation with the key, where `n` is what it has before them.
unfoldable pub shares_after : Bytes → ℕ → List (Effect StakingValue) → ℕ
shares_after key n [] = n
shares_after key n (reads store k v ∷ es) = shares_after key n es
shares_after key n (writes store k (validator_value v) ∷ es) = shares_after key n es
shares_after key n (writes store k (delegation_value d) ∷ es) =
    shares_after key (if bytes_eq store (codes "delegation") && bytes_eq k key then d.shares else n)
      es
shares_after key n (transfers from to amount ∷ es) = shares_after key n es
shares_after key n (emits kind attributes ∷ es) = shares_after key n es
shares_after key n (deletes store k ∷ es) =
    shares_after key (if bytes_eq store (codes "delegation") && bytes_eq k key then 0 else n) es

abbrev delegation_effects : Stake → Delegation → ℕ → List (Effect StakingValue)
delegation_effects m d height =
    delegation_effect m d ∷ stake_event (codes "staking.undelegated") m height ∷ []

pub pool-IsName : IsName staking_pool
unfolding AccountName.is_valid AccountName.all_name_chars AccountName.is_name_char
pool-IsName = refl
