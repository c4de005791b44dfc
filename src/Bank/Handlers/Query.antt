-- ===== src/Bank/Handlers/Query.antt =====
-- `handleQueryBalance` of modules/bank/module.go.
use punnet_sdk.Base.{◌≡◌, refl, true, false, [], ◌∷◌, ◌++◌, some, ok, arith}
use punnet_sdk.Base.Bytes.{Bytes, codes}
use punnet_sdk.Types.AccountName
use punnet_sdk.Types.AccountName.{all_name_chars, is_name_char}
use punnet_sdk.Store.Balance.{BalanceStore, new_balance}
use punnet_sdk.Store.Balance.Amounts.{IsStore, IsName, IsDenom, stored, get_lem}
use punnet_sdk.Capability.Balances.{get_balance, check_place}
use punnet_sdk.Bank.Handlers.{split_once, query_parts, handle_query_balance, decimal}

split_once-name :
    (a d : Bytes) → all_name_chars a ≡ true → split_once b'/' (a ++ (codes "/" ++ d)) ≡ some (a, d)
unfolding split_once all_name_chars is_name_char
split_once-name [] d h = refl
split_once-name (c ∷ a) d h = rw (split_once-name a d (ground (arith, h))) (ground (arith, h))

IsName-chars : (a : Bytes) → IsName a → all_name_chars a ≡ true
unfolding AccountName.is_valid
IsName-chars a v = ground (arith, v)

-- On an open store whose balances stand under their keys as uint64, the query `account/denom` of a
-- valid account and a denomination that is not empty, which may itself contain slashes, answers
-- with the digits of the amount that is stored for them.
pub handle_query_balance_lem :
    (s : BalanceStore) (a d : Bytes)
    → IsStore s
    → IsName a
    → IsDenom d
    → s.closed ≡ false
    → handle_query_balance s (a ++ (codes "/" ++ d)) ≡ ok (decimal (stored s a d))
unfolding handle_query_balance query_parts get_balance check_place new_balance
handle_query_balance_lem s a d h v w o =
    rw (split_once-name a d (IsName-chars a v), get_lem s a d h v w o, v, w) refl
