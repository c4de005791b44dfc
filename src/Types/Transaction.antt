-- ===== src/Types/Transaction.antt =====
-- types/transaction.go: transactions, and `VerifyAuthorization`. A message is of a type `M` with the
-- methods of types/message.go. The bytes that are signed, the hash of the sign document behind its
-- round trip, are a function of the transaction, the chain and the account's nonce.
use punnet_sdk.Base.{
  ℕ, Bool, true, false, not, List, [], ◌∷◌, length, ltb, ◌==◌, if◌then◌else◌, Outcome, ok, err,
  fail_if, ◌>>=◌, ◌>>◌, invalid_account, invalid_transaction, invalid_fee, invalid_ratio,
}
use punnet_sdk.Base.Bytes.{Bytes, bytes_eq}
use punnet_sdk.Base.Dict.{Dict, lookup, insert, is_some}
use punnet_sdk.Types.AccountName
use punnet_sdk.Types.Coin
use punnet_sdk.Types.Coins.{Coins}
use punnet_sdk.Types.Signature.{Curves}
use punnet_sdk.Types.Authority.{Account}
use punnet_sdk.Types.Authorization
use punnet_sdk.Types.Authorization.{Authorization, verify_authorization}

abbrev pub max_fee_coins : ℕ
max_fee_coins = 16

pub record Fee : Type 0 where
  pub amount : Coins
  pub gas_limit : ℕ

pub record Ratio : Type 0 where
  pub numerator : ℕ
  pub denominator : ℕ

-- The loop of the fee's `ValidateBasic`.
unfoldable pub check_fee_coins : Dict Bool → Coins → Outcome (Unit {0})
check_fee_coins seen [] = ok tt
check_fee_coins seen (c ∷ cs) = do
  fail_if (not (Coin.is_valid c)) invalid_fee
  fail_if (is_some (lookup c.denom seen)) invalid_fee
  check_fee_coins (insert c.denom true seen) cs

unfoldable pub validate_fee : Fee → Outcome (Unit {0})
unfolding check_fee_coins
validate_fee f = do
  fail_if (ltb max_fee_coins (length f.amount)) invalid_fee
  check_fee_coins [] f.amount

unfoldable pub validate_ratio : Ratio → Outcome (Unit {0})
validate_ratio r = fail_if (r.denominator == 0) invalid_ratio

-- `Message`
pub record Message (M : Type 0) : Type 0 where
  pub message_type : M → Bytes
  pub validate : M → Outcome (Unit {0})
  pub get_signers : M → List Bytes

pub record Transaction (M : Type 0) : Type 0 where
  pub account : Bytes
  pub messages : List M
  pub authorization : Authorization
  pub nonce : ℕ
  pub memo : Bytes
  pub fee : Fee
  pub fee_slippage : Ratio

-- An error of a part is reported as the transaction's.
abbrev pub as_invalid : Outcome (Unit {0}) → Outcome (Unit {0})
as_invalid (ok u) = ok u
as_invalid (err e) = err invalid_transaction

-- The search for the transaction's account among the signers.
unfoldable pub is_among : Bytes → List Bytes → Bool
is_among account [] = false
is_among account (x ∷ xs) = if bytes_eq x account then true else is_among account xs

module _ {M : Type 0} (message : Message M) where
  -- The loop of `ValidateBasic` over the messages.
  unfoldable pub validate_messages : Bytes → List M → Outcome (Unit {0})
  unfolding is_among
  validate_messages account [] = ok tt
  validate_messages account (m ∷ ms) = do
    as_invalid (message.validate m)
    fail_if (not (is_among account (message.get_signers m))) invalid_transaction
    validate_messages account ms

  unfoldable pub validate_basic : Transaction M → Outcome (Unit {0})
  unfolding validate_messages validate_fee validate_ratio
  validate_basic tx = do
    fail_if (not (AccountName.is_valid tx.account)) invalid_account
    fail_if (length tx.messages == 0) invalid_transaction
    as_invalid (Authorization.validate_basic tx.authorization)
    validate_messages tx.account tx.messages
    fail_if (ltb 512 (length tx.memo)) invalid_transaction
    as_invalid (validate_fee tx.fee)
    as_invalid (validate_ratio tx.fee_slippage)

-- `VerifyAuthorization`
module _ {M : Type 0} (curves : Curves) (sign_bytes : Transaction M → Bytes → ℕ → Outcome Bytes)
    (getter : Bytes → Outcome Account) where
  unfoldable pub verify : Transaction M → Bytes → Account → Outcome (Unit {0})
  verify tx chain_id account = do
    fail_if (length chain_id == 0) invalid_transaction
    fail_if (not (tx.nonce == account.nonce)) invalid_transaction
    message ← sign_bytes tx chain_id account.nonce
    verify_authorization curves message getter tx.authorization account
