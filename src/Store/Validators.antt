-- ===== src/Store/Validators.antt =====
-- store/validator_store.go: the validators and the delegations, over object stores.
pub mod Keys
use punnet_sdk.Base.{
  ℕ, ◌+◌, ◌/◌, ◌%◌, Bool, true, false, not, ◌&&◌, List, [], ◌∷◌, ◌++◌, map, length, ltb, leb, ◌==◌,
  if◌then◌else◌, Option, none, some, Outcome, ok, err, fail_if, ◌>>=◌, ◌>>◌, ℤ, is_above_zero,
  key_invalid, value_invalid, invalid_account, store_closed,
}
use punnet_sdk.Base.Bytes.{Bytes, codes}
use punnet_sdk.Base.Dict.{Dict}
use punnet_sdk.Types.AccountName
use punnet_sdk.Store.Objects
use punnet_sdk.Store.Objects.{Objects}

pub record Validator : Type 0 where
  pub pub_key : Bytes
  pub power : ℤ
  pub delegator : Bytes
  pub commission : ℕ
  pub active : Bool

unfoldable pub new_validator : Bytes → ℤ → Bytes → Validator
new_validator pub_key power delegator = record {
  pub_key = pub_key;
  power = power;
  delegator = delegator;
  commission = 0;
  active = true;
}

unfoldable pub is_valid : Validator → Bool
is_valid v =
    ltb 0 (length v.pub_key) && (AccountName.is_valid v.delegator && leb v.commission 10000)

pub record Delegation : Type 0 where
  pub delegator : Bytes
  pub validator : Bytes
  pub shares : ℕ

unfoldable pub new_delegation : Bytes → Bytes → ℕ → Delegation
new_delegation delegator validator shares = record {
  delegator = delegator;
  validator = validator;
  shares = shares;
}

unfoldable pub is_valid_delegation : Delegation → Bool
is_valid_delegation d = AccountName.is_valid d.delegator && ltb 0 (length d.validator)

-- `%x` of bytes
unfoldable pub hex_digit : ℕ → ℕ
hex_digit n = if ltb n 10 then 48 + n else 87 + n

unfoldable pub hex : Bytes → Bytes
unfolding hex_digit
hex [] = []
hex (b ∷ bs) = hex_digit (b / 16) ∷ hex_digit (b % 16) ∷ hex bs

unfoldable pub delegation_key : Bytes → Bytes → Bytes
unfolding hex
delegation_key delegator validator = delegator ++ (codes "/" ++ hex validator)

abbrev pub ValidatorStore : Type 0
ValidatorStore = Objects Validator

abbrev pub DelegationStore : Type 0
DelegationStore = Objects Delegation

-- A write behind a test.
abbrev pub unless_bad :
    {V : Type 0}
    → Outcome (Unit {0})
    → Objects V
    → Outcome (Unit {0}) × Objects V
    → Outcome (Unit {0}) × Objects V
unless_bad (ok _) s r = r
unless_bad (err e) s r = (err e, s)

unfoldable pub check_pub_key : Bytes → Outcome (Unit {0})
check_pub_key pub_key = fail_if (length pub_key == 0) key_invalid

unfoldable pub get : ValidatorStore → Bytes → Outcome Validator
unfolding check_pub_key
get s pub_key = do check_pub_key pub_key; Objects.get s pub_key

unfoldable pub set : ValidatorStore → Validator → Outcome (Unit {0}) × ValidatorStore
set s v = unless_bad (fail_if (not (is_valid v)) value_invalid) s (Objects.set s v.pub_key v)

unfoldable pub delete : ValidatorStore → Bytes → Outcome (Unit {0}) × ValidatorStore
unfolding check_pub_key
delete s pub_key = unless_bad (check_pub_key pub_key) s (Objects.delete s pub_key)

unfoldable pub has : ValidatorStore → Bytes → Outcome Bool
unfolding check_pub_key
has s pub_key = do check_pub_key pub_key; Objects.has s pub_key

-- `SetPower` and `SetActive`
abbrev pub change_read :
    ValidatorStore
    → (Validator → Validator)
    → Outcome Validator
    → Outcome (Unit {0}) × ValidatorStore
change_read s f (ok v) = set s (f v)
change_read s f (err e) = (err e, s)

unfoldable pub set_power : ValidatorStore → Bytes → ℤ → Outcome (Unit {0}) × ValidatorStore
set_power s pub_key power = change_read s (λ v. record v { power = power }) (get s pub_key)

unfoldable pub set_active : ValidatorStore → Bytes → Bool → Outcome (Unit {0}) × ValidatorStore
set_active s pub_key active = change_read s (λ v. record v { active = active }) (get s pub_key)

-- The loop of `GetActiveValidators`, over the validators that the iterator gives.
unfoldable pub active_of : Dict Validator → List Validator
active_of [] = []
active_of ((k, v) ∷ items) =
    let rest = active_of items in if v.active && is_above_zero v.power then v ∷ rest else rest

unfoldable pub to_validator_update : Validator → Bytes × ℤ
to_validator_update v = (v.pub_key, v.power)

unfoldable pub get_validator_updates : Dict Validator → List (Bytes × ℤ)
unfolding active_of to_validator_update
get_validator_updates items = map to_validator_update (active_of items)

unfoldable pub check_delegation : Bytes → Bytes → Outcome (Unit {0})
check_delegation delegator validator = do
  fail_if (not (AccountName.is_valid delegator)) invalid_account
  fail_if (length validator == 0) key_invalid

unfoldable pub get_delegation : DelegationStore → Bytes → Bytes → Outcome Delegation
unfolding check_delegation delegation_key
get_delegation s delegator validator = do
  check_delegation delegator validator
  Objects.get s (delegation_key delegator validator)

unfoldable pub set_delegation : DelegationStore → Delegation → Outcome (Unit {0}) × DelegationStore
unfolding delegation_key
set_delegation s d =
    unless_bad (fail_if (not (is_valid_delegation d)) value_invalid) s
      (Objects.set s (delegation_key d.delegator d.validator) d)

unfoldable pub delete_delegation :
    DelegationStore → Bytes → Bytes → Outcome (Unit {0}) × DelegationStore
unfolding check_delegation delegation_key
delete_delegation s delegator validator =
    unless_bad (check_delegation delegator validator) s
      (Objects.delete s (delegation_key delegator validator))

unfoldable pub has_delegation : DelegationStore → Bytes → Bytes → Outcome Bool
unfolding check_delegation delegation_key
has_delegation s delegator validator = do
  check_delegation delegator validator
  Objects.has s (delegation_key delegator validator)
