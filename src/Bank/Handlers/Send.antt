-- ===== src/Bank/Handlers/Send.antt =====
-- `handleSend` of modules/bank/module.go, with the validation of its message and the transfer.
use punnet_sdk.Base.{ℕ, ◌≡◌, refl, true, false, Outcome, ok, err, >>=-eq-ok, ltb, arith, ◌==◌}
use punnet_sdk.Base.Bytes.{Bytes}
use punnet_sdk.Types.Coin
use punnet_sdk.Types.Coins
use punnet_sdk.Effects.Effect.{Effect}
use punnet_sdk.Store.Balance
use punnet_sdk.Store.Balance.{BalanceStore, Balance}
use punnet_sdk.Store.Balance.Amounts.{IsStore, stored, IsName, IsDenom, get_lem, get_fails}
use punnet_sdk.Capability.Balances.{get_balance, amount_in, check_place}

pub get_balance_reads :
    (s : BalanceStore) (a d : Bytes) (n : ℕ)
    → IsStore s
    → get_balance s a d ≡ ok n
    → IsName a × IsDenom d × (s.closed ≡ false) × (n ≡ stored s a d)
unfolding get_balance Balance.new_balance
get_balance_reads s a d n h e =
    let (_, _, e1) = >>=-eq-ok (check_place a d) _ e in go (Balance.get s a d) refl e1
  where
    go :
        (r : Outcome Balance)
        → Balance.get s a d ≡ r
        → amount_in r ≡ ok n
        → IsName a × IsDenom d × (s.closed ≡ false) × (n ≡ stored s a d)
    go (err x) f g = cc
    go (ok b) f g =
        let (v, w, o) = get_fails s a d h b f in
        (v, w, o, ground (arith, get_lem s a d h v w o, f, g))

nonzero : (n : ℕ) → ltb 0 n ≡ true → (n == 0) ≡ false
nonzero n h = ground arith
