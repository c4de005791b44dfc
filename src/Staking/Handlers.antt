-- ===== src/Staking/Handlers.antt =====
-- modules/staking/module.go: the message handlers.
use punnet_sdk.Base.{
  ℕ, ◌+◌, ◌-◌, Bool, true, false, not, List, [], ◌∷◌, ◌++◌, ltb, ◌==◌, if◌then◌else◌, Option, none,
  some, Outcome, ok, err, fail_if, ◌>>=◌, ◌>>◌, ℤ, pos, negsuc, add_u64, wrong_sender,
  wrong_message, account_exists, not_found, insufficient_funds,
}
use punnet_sdk.Base.Bytes.{Bytes, codes, bytes_eq}
use punnet_sdk.Effects.Effect.{Effect, writes, deletes, emits, transfers}
use punnet_sdk.Store.Balance.{BalanceStore}
use punnet_sdk.Store.Validators.{
  Validator, Delegation, ValidatorStore, DelegationStore, new_validator, new_delegation,
  delegation_key, hex,
}
use punnet_sdk.Capability.Balances.{get_balance}
use punnet_sdk.Capability.Validators.{has_validator, has_delegation, get_delegation}
use punnet_sdk.Staking.Messages.{Stake, StakingMsg, create_validator, delegate, undelegate}
use punnet_sdk.Bank.Handlers.{decimal}

-- The values that the module writes.
pub data StakingValue : Type 0 where
  validator_value : Validator → StakingValue
  delegation_value : Delegation → StakingValue

-- `%d` of an int64
unfoldable pub signed_decimal : ℤ → Bytes
signed_decimal (pos n) = decimal n
signed_decimal (negsuc n) = codes "-" ++ decimal (n + 1)

abbrev pub staking_pool : Bytes
staking_pool = codes "staking.pool"

unfoldable pub with_commission : Validator → ℕ → Validator
with_commission v commission = record v { commission = commission; active = true }

unfoldable pub handle_create_validator :
    ValidatorStore → Bytes → ℕ → StakingMsg → Outcome (List (Effect StakingValue))
unfolding signed_decimal with_commission
handle_create_validator s account height (create_validator m) = do
  fail_if (not (bytes_eq m.delegator account)) wrong_sender
  exists ← has_validator s m.pub_key
  fail_if exists account_exists
  ok (
      writes (codes "validator") m.pub_key (
        validator_value
          (with_commission (new_validator m.pub_key m.initial_power m.delegator) m.commission))
      ∷ emits (codes "staking.validator_created") (
          (codes "delegator", m.delegator)
          ∷ (codes "pub_key", hex m.pub_key)
          ∷ (codes "power", signed_decimal m.initial_power)
          ∷ (codes "commission", decimal m.commission)
          ∷ (codes "height", decimal height)
          ∷ [])
      ∷ [])
handle_create_validator s account height _ = err wrong_message

unfoldable pub stake_event : Bytes → Stake → ℕ → Effect StakingValue
stake_event kind m height = emits kind (
    (codes "delegator", m.delegator)
    ∷ (codes "validator", hex m.validator)
    ∷ (codes "amount", decimal m.amount.amount)
    ∷ (codes "denom", m.amount.denom)
    ∷ (codes "height", decimal height)
    ∷ [])

-- The delegation with the amount added to its shares, which wrap.
unfoldable pub add_shares : Delegation → ℕ → Delegation
add_shares d n = record d { shares = add_u64 d.shares n }

-- The delegation that a `MsgDelegate` writes.
unfoldable pub delegation_after : DelegationStore → Stake → Bool → Outcome Delegation
unfolding add_shares
delegation_after s m true = do
  d ← get_delegation s m.delegator m.validator
  ok (add_shares d m.amount.amount)
delegation_after s m false = ok (new_delegation m.delegator m.validator m.amount.amount)

unfoldable pub handle_delegate :
    ValidatorStore
    → DelegationStore
    → BalanceStore
    → Bytes
    → ℕ
    → StakingMsg
    → Outcome (List (Effect StakingValue))
unfolding stake_event delegation_after
handle_delegate vs ds bs account height (delegate m) = do
  fail_if (not (bytes_eq m.delegator account)) wrong_sender
  exists ← has_validator vs m.validator
  fail_if (not exists) not_found
  balance ← get_balance bs m.delegator m.amount.denom
  fail_if (ltb balance m.amount.amount) insufficient_funds
  known ← has_delegation ds m.delegator m.validator
  d ← delegation_after ds m known
  ok (
      transfers m.delegator staking_pool (m.amount ∷ [])
      ∷ writes (codes "delegation") (delegation_key m.delegator m.validator) (delegation_value d)
      ∷ stake_event (codes "staking.delegated") m height
      ∷ [])
handle_delegate vs ds bs account height _ = err wrong_message

-- The effect on the delegation of a `MsgUndelegate`.
unfoldable pub delegation_effect : Stake → Delegation → Effect StakingValue
delegation_effect m d =
    if d.shares == m.amount.amount
    then deletes (codes "delegation") (delegation_key m.delegator m.validator)
    else writes (codes "delegation") (delegation_key m.delegator m.validator)
        (delegation_value (record d { shares = d.shares - m.amount.amount }))

unfoldable pub handle_undelegate :
    DelegationStore → Bytes → ℕ → StakingMsg → Outcome (List (Effect StakingValue))
unfolding stake_event delegation_effect
handle_undelegate ds account height (undelegate m) = do
  fail_if (not (bytes_eq m.delegator account)) wrong_sender
  known ← has_delegation ds m.delegator m.validator
  fail_if (not known) not_found
  d ← get_delegation ds m.delegator m.validator
  fail_if (ltb d.shares m.amount.amount) insufficient_funds
  ok (
      transfers staking_pool m.delegator (m.amount ∷ [])
      ∷ delegation_effect m d
      ∷ stake_event (codes "staking.undelegated") m height
      ∷ [])
handle_undelegate ds account height _ = err wrong_message

-- `splitOnce`: the part behind the separator is `none` where there is no separator.
unfoldable pub split_once : Bytes → ℕ → Bytes × Option Bytes
split_once [] sep = ([], none)
split_once (c ∷ cs) sep =
    let rest = split_once cs sep in if c == sep then ([], some cs) else (c ∷ rest.0, rest.1)
