-- ===== src/Staking/Messages.antt =====
-- modules/staking/messages.go: the messages of the module.
use punnet_sdk.Base.{
  ℕ, not, List, [], ◌∷◌, length, ltb, ◌==◌, Outcome, fail_if, ◌>>◌, ℤ, is_negative, invalid_account,
  empty_key, invalid_amount, amount_not_positive, value_invalid,
}
use punnet_sdk.Base.Bytes.{Bytes, codes}
use punnet_sdk.Types.AccountName
use punnet_sdk.Types.Coin
use punnet_sdk.Types.Coin.{Coin}

pub record MsgCreateValidator : Type 0 where
  pub delegator : Bytes
  pub pub_key : Bytes
  pub initial_power : ℤ
  pub commission : ℕ

-- `MsgDelegate` and `MsgUndelegate`, which have the same fields.
pub record Stake : Type 0 where
  pub delegator : Bytes
  pub validator : Bytes
  pub amount : Coin

-- The messages as values of the interface `Message`.
pub data StakingMsg : Type 0 where
  create_validator : MsgCreateValidator → StakingMsg
  delegate : Stake → StakingMsg
  undelegate : Stake → StakingMsg

unfoldable pub message_type : StakingMsg → Bytes
message_type (create_validator m) = codes "/punnet.staking.v1.MsgCreateValidator"
message_type (delegate m) = codes "/punnet.staking.v1.MsgDelegate"
message_type (undelegate m) = codes "/punnet.staking.v1.MsgUndelegate"

-- `ValidateBasic` of `MsgDelegate` and of `MsgUndelegate`.
unfoldable pub validate_stake : Stake → Outcome (Unit {0})
validate_stake m = do
  fail_if (not (AccountName.is_valid m.delegator)) invalid_account
  fail_if (length m.validator == 0) empty_key
  fail_if (not (Coin.is_valid m.amount)) invalid_amount
  fail_if (not (Coin.is_positive m.amount)) amount_not_positive

unfoldable pub validate : StakingMsg → Outcome (Unit {0})
unfolding validate_stake
validate (create_validator m) = do
  fail_if (not (AccountName.is_valid m.delegator)) invalid_account
  fail_if (length m.pub_key == 0) empty_key
  fail_if (is_negative m.initial_power) value_invalid
  fail_if (ltb 10000 m.commission) value_invalid
validate (delegate m) = validate_stake m
validate (undelegate m) = validate_stake m

unfoldable pub get_signers : StakingMsg → List Bytes
get_signers (create_validator m) = m.delegator ∷ []
get_signers (delegate m) = m.delegator ∷ []
get_signers (undelegate m) = m.delegator ∷ []
