-- ===== src/Staking/Queries.antt =====
-- modules/staking/module.go: the queries. `hex.DecodeString` is a parameter; the validators that the
-- iterator of the store gives are an argument.
use punnet_sdk.Base.{
  Bool, true, false, not, ◌++◌, length, ◌==◌, Option, none, some, Outcome, ok, err, fail_if, ◌>>=◌,
  ◌>>◌, empty_key, invalid_query, invalid_account,
}
use punnet_sdk.Base.Bytes.{Bytes, codes}
use punnet_sdk.Base.Dict.{Dict}
use punnet_sdk.Types.AccountName
use punnet_sdk.Store.Validators.{Validator, ValidatorStore, DelegationStore, active_of}
use punnet_sdk.Capability.Validators.{get_validator, get_delegation}
use punnet_sdk.Staking.Handlers.{signed_decimal, split_once}
use punnet_sdk.Bank.Handlers.{decimal}

-- The key in hexadecimal digits, or else as it is.
abbrev pub decoded_or : Bytes → Outcome Bytes → Bytes
decoded_or d (ok k) = k
decoded_or d (err e) = d

-- `%v` of a bool
abbrev pub truth : Bool → Bytes
truth true = codes "true"
truth false = codes "false"

module _ (decode_string : Bytes → Outcome Bytes) where
  unfoldable pub handle_query_validator : ValidatorStore → Bytes → Outcome Bytes
  handle_query_validator s d =
      let pub_key = decoded_or d (decode_string d) in
      fail_if (length pub_key == 0) empty_key
      >> (get_validator s pub_key >>= λ v. ok (
          codes "power="
          ++ (signed_decimal v.power
              ++ (codes ",active="
                  ++ (truth v.active ++ (codes ",commission=" ++ decimal v.commission))))))

  -- Behind the split of the query.
  abbrev pub query_delegation : DelegationStore → Bytes × Option Bytes → Outcome Bytes
  query_delegation s (delegator, none) = err invalid_query
  query_delegation s (delegator, some digits) = do
    fail_if (not (AccountName.is_valid delegator)) invalid_account
    validator ← decode_string digits
    d ← get_delegation s delegator validator
    ok (codes "shares=" ++ decimal d.shares)

  unfoldable pub handle_query_delegation : DelegationStore → Bytes → Outcome Bytes
  handle_query_delegation s d = query_delegation s (split_once d 47)

unfoldable pub handle_query_validators : Dict Validator → Bytes
handle_query_validators items = codes "count=" ++ decimal (length (active_of items))
