-- ===== src/Types/Authority.antt =====
-- types/account.go: the authority of an account, and the account.
pub mod Totals
use punnet_sdk.Base.{
  ℕ, ◌-◌, Bool, not, [], ◌∷◌, Option, Outcome, ok, err, fail_if, ◌>>=◌, ◌>>◌, invalid_account,
  invalid_authority, ltb, ◌==◌, if◌then◌else◌, max_u64, add_u64,
}
use punnet_sdk.Base.Bytes.{Bytes}
use punnet_sdk.Base.Dict.{Dict, lookup, get_or, is_some}
use punnet_sdk.Types.AccountName

pub record Authority : Type 0 where
  pub threshold : ℕ
  pub key_weights : Dict ℕ
  pub account_weights : Dict ℕ

unfoldable pub new_authority : ℕ → Bytes → ℕ → Authority
new_authority threshold pub_key weight = record {
  threshold = threshold;
  key_weights = (pub_key, weight) ∷ [];
  account_weights = [];
}

-- A loop of `ValidateBasic` that adds the weights of one map.
unfoldable pub add_weights : ℕ → Dict ℕ → Outcome ℕ
unfolding add_u64
add_weights total [] = ok total
add_weights total ((_, weight) ∷ m) =
    let rest = add_weights (add_u64 total weight) m in
    if ltb (max_u64 - weight) total then err invalid_authority else rest

-- The last loop of `ValidateBasic`.
unfoldable pub check_names : Dict ℕ → Outcome (Unit {0})
check_names [] = ok tt
check_names ((acct, _) ∷ m) = do
  fail_if (not (AccountName.is_valid acct)) invalid_authority
  check_names m

unfoldable pub validate_basic : Authority → Outcome (Unit {0})
validate_basic a = do
  fail_if (a.threshold == 0) invalid_authority
  keys ← add_weights 0 a.key_weights
  total ← add_weights keys a.account_weights
  fail_if (ltb total a.threshold) invalid_authority
  check_names a.account_weights

unfoldable pub has_key : Authority → Bytes → Bool
has_key a pub_key = is_some (lookup pub_key a.key_weights)

unfoldable pub get_key_weight : Authority → Bytes → ℕ
get_key_weight a pub_key = get_or 0 (lookup pub_key a.key_weights)

unfoldable pub has_account : Authority → Bytes → Bool
has_account a account = is_some (lookup account a.account_weights)

unfoldable pub get_account_weight : Authority → Bytes → ℕ
get_account_weight a account = get_or 0 (lookup account a.account_weights)

-- The loop of `TotalKeyWeight` and of `TotalAccountWeight`: its sum wraps.
unfoldable pub total_weight : ℕ → Dict ℕ → ℕ
unfolding add_u64
total_weight total [] = total
total_weight total ((_, weight) ∷ m) = total_weight (add_u64 total weight) m

unfoldable pub total_key_weight : Authority → ℕ
total_key_weight a = total_weight 0 a.key_weights

unfoldable pub total_account_weight : Authority → ℕ
total_account_weight a = total_weight 0 a.account_weights

unfoldable pub total_possible_weight : Authority → ℕ
unfolding add_u64 total_key_weight total_account_weight
total_possible_weight a = add_u64 (total_key_weight a) (total_account_weight a)

-- Times are the numbers that stand for them: no code of this part reads them.
pub record Account : Type 0 where
  pub name : Bytes
  pub authority : Authority
  pub nonce : ℕ
  pub created_at : ℕ
  pub updated_at : ℕ

unfoldable pub new_account : Bytes → Bytes → ℕ → Account
unfolding new_authority
new_account name pub_key now = record {
  name = name;
  authority = new_authority 1 pub_key 1;
  nonce = 0;
  created_at = now;
  updated_at = now;
}

unfoldable pub validate_account : Account → Outcome (Unit {0})
validate_account a = do
  fail_if (not (AccountName.is_valid a.name)) invalid_account
  validate_basic a.authority
