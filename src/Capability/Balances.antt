-- ===== src/Capability/Balances.antt =====
-- capability/balance.go: `balanceCapability`, which checks its arguments before each call of the
-- balance store.
use punnet_sdk.Base.{
  ℕ, ◌≡◌, ◌≤◌, ◌<◌, max_u64, refl, Bool, false, not, [], Outcome, ok, err, fail_if, ◌>>◌, ◌==◌,
  if◌then◌else◌, invalid_account, empty_denom, self_transfer, arith, Bool-cases, Outcome-cases, inl,
  inr,
}
use punnet_sdk.Base.Bytes.{Bytes, bytes_eq}
use punnet_sdk.Types.AccountName
use punnet_sdk.Store.Balance
use punnet_sdk.Store.Balance.{BalanceStore, Step, Balance, new_balance, reading}
use punnet_sdk.Store.Balance.Amounts.{
  IsName, IsDenom, IsStore, stored, put, put-IsStore, set_lem, get_lem, stored-put,
}
use punnet_sdk.Store.Balance.Transfer.{Transferred, transfer_lem, transfer_none, Nat-cases}

-- The checks that every operation on one balance starts with.
unfoldable pub check_place : Bytes → Bytes → Outcome (Unit {0})
check_place account denom = do
  fail_if (not (AccountName.is_valid account)) invalid_account
  fail_if (bytes_eq denom []) empty_denom

abbrev pub amount_in : Outcome Balance → Outcome ℕ
amount_in (ok b) = ok b.amount
amount_in (err e) = err e

unfoldable pub get_balance : BalanceStore → Bytes → Bytes → Outcome ℕ
unfolding check_place
get_balance s account denom = do check_place account denom; amount_in (Balance.get s account denom)

unfoldable pub set_balance : BalanceStore → Bytes → Bytes → ℕ → Step
unfolding check_place
set_balance s account denom amount =
    reading s (check_place account denom) (λ u. Balance.set s (new_balance account denom amount))

unfoldable pub add_balance : BalanceStore → Bytes → Bytes → ℕ → Step
unfolding check_place
add_balance s account denom amount =
    reading s (check_place account denom)
      (λ u. if amount == 0 then (ok tt, s) else Balance.add_amount s account denom amount)

unfoldable pub sub_balance : BalanceStore → Bytes → Bytes → ℕ → Step
unfolding check_place
sub_balance s account denom amount =
    reading s (check_place account denom)
      (λ u. if amount == 0 then (ok tt, s) else Balance.sub_amount s account denom amount)

-- The checks of `Transfer`.
unfoldable pub check_transfer : Bytes → Bytes → Bytes → Outcome (Unit {0})
check_transfer from to denom = do
  fail_if (not (AccountName.is_valid from)) invalid_account
  fail_if (not (AccountName.is_valid to)) invalid_account
  fail_if (bytes_eq denom []) empty_denom

unfoldable pub transfer : BalanceStore → Bytes → Bytes → Bytes → ℕ → Step
unfolding check_transfer
transfer s from to denom amount = reading s (check_transfer from to denom) (λ u.
    if amount == 0
    then (ok tt, s)
    else if bytes_eq from to
    then (err self_transfer, s)
    else Balance.transfer s from to denom amount)

unfoldable pub has_balance : BalanceStore → Bytes → Bytes → Outcome Bool
unfolding check_place
has_balance s account denom = do check_place account denom; Balance.has s account denom

not_zero : (n : ℕ) → 0 < n → (n == 0) ≡ false
not_zero n pos = ground arith

module _ (s : BalanceStore) (a d : Bytes) (h : IsStore s) where
  -- On an open store whose balances stand under their keys as uint64, a uint64 balance that is set
  -- for a valid account and a denomination that is not empty is the one that is read back there,
  -- and the balances of the others are read as before.
  pub get_balance-set_balance :
      (n : ℕ) (b e : Bytes)
      → IsName a
      → IsDenom d
      → IsName b
      → IsDenom e
      → s.closed ≡ false
      → n ≤ max_u64
      → get_balance (set_balance s a d n).1 b e
        ≡ ok (if bytes_eq a b then (if bytes_eq d e then n else stored s b e) else stored s b e)
  unfolding get_balance set_balance check_place new_balance
  get_balance-set_balance n b e v w v1 w1 o le =
      rw
        (
          v,
          w,
          set_lem s a d h n v w o,
          v1,
          w1,
          get_lem (put s a d n) b e (put-IsStore s a d n v le h) v1 w1 o,
        )
        (ground (arith, stored-put s a d b e n v v1))

  -- A transfer by the capability on a store whose balances stand under their keys as uint64 keeps
  -- the store so, and moves the amount without an error or changes no balance with one.
  transfer_by_capability_lem : (to : Bytes) (n : ℕ) → Transferred s a to d n (transfer s a to d n)
  unfolding transfer
  transfer_by_capability_lem to n = elim (Outcome-cases (check_transfer a to d)) [
    | inr (x, e) ↦ rw (e) (h, inr (x, refl, λ b c u. refl))
    | inl (u, e) ↦ elim (Nat-cases n) [
      | inl z ↦ rw (e, z) (transfer_none s a to d h)
      | inr pos ↦
          rw (e, not_zero n pos)
            (elim (Bool-cases (bytes_eq a to)) [
              | inl t ↦ rw (t) (h, inr (self_transfer, refl, λ b c u. refl))
              | inr t ↦ rw (t) (transfer_lem s a to d n h)
            ])
    ]
  ]
