-- ===== src/Store/Balance/Keys.antt =====
-- `BalanceKey` of store/balance_store.go: the keys of balances, in which a slash ends the account.
use punnet_sdk.Base.{◌≡◌, true, false, ◌∷◌, [], ◌++◌, arith}
use punnet_sdk.Base.Bytes.{Bytes, codes}
use punnet_sdk.Types.AccountName
use punnet_sdk.Types.AccountName.{is_name_char, all_name_chars}
use punnet_sdk.Store.Balance.{balance_key}

no_slash : all_name_chars (codes "/") ≡ false
unfolding all_name_chars is_name_char
no_slash = ground arith

split_name :
    (a b d e : Bytes)
    → all_name_chars a ≡ true
    → all_name_chars b ≡ true
    → a ++ (47 ∷ d) ≡ b ++ (47 ∷ e)
    → (a ≡ b) × (d ≡ e)
unfolding all_name_chars is_name_char
split_name [] [] d e h k eq = ground arith
split_name [] (y ∷ b) d e h k eq = ground arith
split_name (x ∷ a) [] d e h k eq = ground arith
split_name (x ∷ a) (y ∷ b) d e h k eq = ground (arith, split_name a b d e)

-- Two balances of valid accounts share a key only if account and denomination are the same.
pub balance_key_injective :
    (a b d e : Bytes)
    → AccountName.is_valid a ≡ true
    → AccountName.is_valid b ≡ true
    → balance_key a d ≡ balance_key b e
    → (a ≡ b) × (d ≡ e)
unfolding balance_key AccountName.is_valid
balance_key_injective a b d e h k eq = ground (arith, split_name a b d e)
