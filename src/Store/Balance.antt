-- ===== src/Store/Balance.antt =====
-- store/balance_store.go: balances by account and denomination, over an object store. An operation
-- that writes returns its error, or none, with the store it leaves.
pub mod Keys
pub mod Amounts
pub mod Transfer
use punnet_sdk.Base.{
  ℕ, ◌-◌, Bool, true, false, not, ◌&&◌, List, [], ◌∷◌, ◌++◌, Outcome, ok, err, Error, fail_if,
  ◌>>=◌, ◌>>◌, ltb, ◌==◌, if◌then◌else◌, max_u64, add_u64, invalid_account, key_invalid,
  value_invalid, key_not_found, balance_overflow, insufficient_funds, rollback_failed,
}
use punnet_sdk.Base.Bytes.{Bytes, codes, bytes_eq}
use punnet_sdk.Types.AccountName
use punnet_sdk.Store.Objects
use punnet_sdk.Store.Objects.{Objects}

pub record Balance : Type 0 where
  pub account : Bytes
  pub denom : Bytes
  pub amount : ℕ

unfoldable pub new_balance : Bytes → Bytes → ℕ → Balance
new_balance account denom amount = record { account = account; denom = denom; amount = amount }

unfoldable pub is_valid : Balance → Bool
is_valid b = AccountName.is_valid b.account && not (bytes_eq b.denom [])

-- `%s/%s`
unfoldable pub balance_key : Bytes → Bytes → Bytes
balance_key account denom = account ++ (codes "/" ++ denom)

abbrev pub BalanceStore : Type 0
BalanceStore = Objects Balance

-- An error, or none, with the store that is left.
abbrev pub Step : Type 0
Step = Outcome (Unit {0}) × BalanceStore

-- `if err != nil { return err }` behind a call that only reads
abbrev pub reading : {A : Type 0} → BalanceStore → Outcome A → (A → Step) → Step
reading s (ok a) f = f a
reading s (err e) f = (err e, s)

-- The two ways on after a call that writes.
abbrev pub writing :
    Outcome (Unit {0}) → BalanceStore → (BalanceStore → Step) → (Error → BalanceStore → Step) → Step
writing (ok u) s f g = f s
writing (err e) s f g = g e s

-- The checks of the account and the denomination that `Get`, `Delete` and `Has` share.
unfoldable pub check_key : Bytes → Bytes → Outcome (Unit {0})
check_key account denom = do
  fail_if (not (AccountName.is_valid account)) invalid_account
  fail_if (bytes_eq denom []) key_invalid

-- `Get` behind its checks: a zero balance where none is stored.
abbrev pub or_zero : Bytes → Bytes → Outcome Balance → Outcome Balance
or_zero account denom (ok b) = ok b
or_zero account denom (err key_not_found) = ok (new_balance account denom 0)
or_zero account denom (err e) = err e

unfoldable pub get : BalanceStore → Bytes → Bytes → Outcome Balance
unfolding check_key balance_key
get s account denom = do
  check_key account denom
  or_zero account denom (Objects.get s (balance_key account denom))

unfoldable pub set : BalanceStore → Balance → Step
unfolding is_valid balance_key
set s b =
    if not (is_valid b)
    then (err value_invalid, s)
    else Objects.set s (balance_key b.account b.denom) b

unfoldable pub delete : BalanceStore → Bytes → Bytes → Step
unfolding check_key balance_key
delete s account denom =
    reading s (check_key account denom) (λ u. Objects.delete s (balance_key account denom))

unfoldable pub has : BalanceStore → Bytes → Bytes → Outcome Bool
unfolding check_key balance_key
has s account denom = do check_key account denom; Objects.has s (balance_key account denom)

unfoldable pub add_amount : BalanceStore → Bytes → Bytes → ℕ → Step
unfolding get set
add_amount s account denom amount =
    if amount == 0
    then (ok tt, s)
    else reading s (get s account denom) (λ b.
      if ltb (max_u64 - amount) b.amount
      then (err balance_overflow, s)
      else set s (new_balance b.account b.denom (add_u64 b.amount amount)))

unfoldable pub sub_amount : BalanceStore → Bytes → Bytes → ℕ → Step
unfolding get set
sub_amount s account denom amount =
    if amount == 0
    then (ok tt, s)
    else reading s (get s account denom) (λ b.
      if ltb b.amount amount
      then (err insufficient_funds, s)
      else set s (new_balance b.account b.denom (b.amount - amount)))

-- `Transfer` from its second step on: a failure to add to the receiver gives the sender its amount
-- back.
unfoldable pub credit : BalanceStore → Bytes → Bytes → Bytes → ℕ → Step
unfolding add_amount
credit s from to denom amount =
    let added = add_amount s to denom amount in
    writing added.0 added.1 (λ t. (ok tt, t))
      (λ e t.
        let back = add_amount t from denom amount in
        writing back.0 back.1 (λ u. (err e, u)) (λ _ u. (err rollback_failed, u)))

unfoldable pub transfer : BalanceStore → Bytes → Bytes → Bytes → ℕ → Step
unfolding get sub_amount credit
transfer s from to denom amount =
    if amount == 0
    then (ok tt, s)
    else reading s (get s from denom) (λ b.
      if ltb b.amount amount
      then (err insufficient_funds, s)
      else let taken = sub_amount s from denom amount in
        writing taken.0 taken.1 (λ t. credit t from to denom amount) (λ e t. (err e, t)))

unfoldable pub close : BalanceStore → Step
close s = Objects.close s
