-- ===== src/Capability/Validators.antt =====
-- capability/validator.go: `validatorCapability`, which checks its arguments before each call of a store.
use punnet_sdk.Base.{
  Bool, not, length, ◌==◌, Outcome, fail_if, ◌>>◌, ℤ, empty_key, value_invalid, invalid_account,
}
use punnet_sdk.Base.Bytes.{Bytes}
use punnet_sdk.Types.AccountName
use punnet_sdk.Store.Validators
use punnet_sdk.Store.Validators.{
  Validator, Delegation, ValidatorStore, DelegationStore, is_valid, is_valid_delegation, unless_bad,
}

unfoldable pub check_key : Bytes → Outcome (Unit {0})
check_key pub_key = fail_if (length pub_key == 0) empty_key

unfoldable pub get_validator : ValidatorStore → Bytes → Outcome Validator
unfolding check_key
get_validator s pub_key = do check_key pub_key; Validators.get s pub_key

unfoldable pub set_validator : ValidatorStore → Validator → Outcome (Unit {0}) × ValidatorStore
set_validator s v = unless_bad (fail_if (not (is_valid v)) value_invalid) s (Validators.set s v)

unfoldable pub delete_validator : ValidatorStore → Bytes → Outcome (Unit {0}) × ValidatorStore
unfolding check_key
delete_validator s pub_key = unless_bad (check_key pub_key) s (Validators.delete s pub_key)

unfoldable pub has_validator : ValidatorStore → Bytes → Outcome Bool
unfolding check_key
has_validator s pub_key = do check_key pub_key; Validators.has s pub_key

unfoldable pub set_validator_power :
    ValidatorStore → Bytes → ℤ → Outcome (Unit {0}) × ValidatorStore
unfolding check_key
set_validator_power s pub_key power =
    unless_bad (check_key pub_key) s (Validators.set_power s pub_key power)

unfoldable pub set_validator_active :
    ValidatorStore → Bytes → Bool → Outcome (Unit {0}) × ValidatorStore
unfolding check_key
set_validator_active s pub_key active =
    unless_bad (check_key pub_key) s (Validators.set_active s pub_key active)

-- The checks of the calls on one delegation.
unfoldable pub check_place : Bytes → Bytes → Outcome (Unit {0})
check_place delegator validator = do
  fail_if (not (AccountName.is_valid delegator)) invalid_account
  fail_if (length validator == 0) empty_key

unfoldable pub get_delegation : DelegationStore → Bytes → Bytes → Outcome Delegation
unfolding check_place
get_delegation s delegator validator = do
  check_place delegator validator
  Validators.get_delegation s delegator validator

unfoldable pub set_delegation : DelegationStore → Delegation → Outcome (Unit {0}) × DelegationStore
set_delegation s d =
    unless_bad (fail_if (not (is_valid_delegation d)) value_invalid) s
      (Validators.set_delegation s d)

unfoldable pub delete_delegation :
    DelegationStore → Bytes → Bytes → Outcome (Unit {0}) × DelegationStore
unfolding check_place
delete_delegation s delegator validator =
    unless_bad (check_place delegator validator) s
      (Validators.delete_delegation s delegator validator)

unfoldable pub has_delegation : DelegationStore → Bytes → Bytes → Outcome Bool
unfolding check_place
has_delegation s delegator validator = do
  check_place delegator validator
  Validators.has_delegation s delegator validator
