-- ===== src/Runtime/Nonces.antt =====
-- The nonces of accounts under `executeTx` of runtime/application.go.
use punnet_sdk.Base.{
  ℕ, ◌≡◌, refl, sym, ◌∙◌, ap, Bool, true, false, length, ◌==◌, if◌then◌else◌, Option, none, some,
  Outcome, ok, err, add_u64, arith, Bool-cases, inl, inr, invalid_transaction,
}
use punnet_sdk.Base.Bytes.{Bytes, bytes_eq, eq_refl}
use punnet_sdk.Base.Dict.{lookup, lookup-insert}
use punnet_sdk.Types.Signature.{Curves}
use punnet_sdk.Types.Authority.{Account}
use punnet_sdk.Types.Transaction.{Transaction, Message, verify}
use punnet_sdk.Store.Objects
use punnet_sdk.Store.Objects.{Objects}
use punnet_sdk.Runtime.Accounted.{succeeded, bumped, Passed, execute_tx-Accounted}
use punnet_sdk.Runtime.Application.{Application, failed, bump_nonce, get_account, execute_tx}

next_nonce : (n : ℕ) → (n == add_u64 n 1) ≡ false
unfolding add_u64
next_nonce n = ground arith

get-bumped :
    {M : Type 0} (tx : Transaction M) (account : Account) (s : Objects Account)
    → Objects.get s tx.account ≡ ok account
    → Objects.get (bumped tx account s) tx.account ≡ ok (bump_nonce account)
unfolding Objects.get
get-bumped tx account s h = ground (
  arith,
  h,
  lookup-insert tx.account tx.account (bump_nonce account) s.entries,
  eq_refl tx.account,
)

abbrev pub nonce_of : Option Account → Option ℕ
nonce_of none = none
nonce_of (some a) = some a.nonce

-- The nonce that a store has for an account.
abbrev pub nonce_in : Objects Account → Bytes → Option ℕ
nonce_in s name = nonce_of (lookup name s.entries)

nonce_of_if :
    (b : Bool) (a : Account) (o : Option Account)
    → nonce_of (if b then some a else o) ≡ (if b then some a.nonce else nonce_of o)
nonce_of_if true a o = refl
nonce_of_if false a o = refl

nonce_in-bumped :
    {M : Type 0} (tx : Transaction M) (account : Account) (s : Objects Account) (name : Bytes)
    → nonce_in (bumped tx account s) name
      ≡ (if bytes_eq tx.account name then some (add_u64 account.nonce 1) else nonce_in s name)
unfolding bump_nonce
nonce_in-bumped tx account s name =
    ap nonce_of (lookup-insert tx.account name (bump_nonce account) s.entries)
    ∙ nonce_of_if (bytes_eq tx.account name) (bump_nonce account) (lookup name s.entries)

module _ {M : Type 0} (curves : Curves)
    (sign_bytes : Transaction M → Bytes → ℕ → Outcome Bytes) where
  verified_parts :
      (getter : Bytes → Outcome Account) (tx : Transaction M) (chain : Bytes) (account : Account)
      → verify curves sign_bytes getter tx chain account ≡ ok tt
      → ((length chain == 0) ≡ false) × (tx.nonce ≡ account.nonce)
  unfolding verify
  verified_parts getter tx chain account e = elim (Bool-cases (length chain == 0)) [
    | inl t ↦ ground (arith, e, t)
    | inr t ↦ elim (Bool-cases (tx.nonce == account.nonce)) [
      | inl n ↦ (t, ground (arith, n))
      | inr n ↦ ground (arith, e, t, n)
    ]
  ]

  refused :
      (getter : Bytes → Outcome Account) (tx : Transaction M) (chain : Bytes) (account : Account)
      → (length chain == 0) ≡ false
      → (tx.nonce == account.nonce) ≡ false
      → verify curves sign_bytes getter tx chain account ≡ err invalid_transaction
  unfolding verify
  refused getter tx chain account t n = rw (t, n) refl

module _ {M V : Type 0} (curves : Curves) (sign_bytes : Transaction M → Bytes → ℕ → Outcome Bytes)
    (message : Message M) where
  replayed :
      (tx : Transaction M) (account : Account) (app : Application M V)
      → Passed curves sign_bytes message tx account app
      → (next : Application M V) → next.chain_id ≡ app.chain_id
      → next.accounts ≡ bumped tx account app.accounts
      → execute_tx curves sign_bytes message tx next ≡ (ok (failed invalid_transaction), next)
  unfolding execute_tx bump_nonce
  replayed tx account app p next c a =
      let (long, same) =
        verified_parts curves sign_bytes (get_account app) tx app.chain_id account p.verified in
      let found =
        ap (λ s. Objects.get s tx.account) a ∙ get-bumped tx account app.accounts p.stored in
      rw
        (
          p.is_valid,
          found,
          refused curves sign_bytes (get_account next) tx next.chain_id (bump_nonce account)
              (rw (c) long) (rw (same) (next_nonce account.nonce)),
        )
        refl

  -- A transaction that has succeeded is refused when it is executed again, and changes nothing then.
  pub replay_refused :
      (tx : Transaction M) (app : Application M V)
      → succeeded (execute_tx curves sign_bytes message tx app).0 ≡ true
      → execute_tx curves sign_bytes message tx (execute_tx curves sign_bytes message tx app).1
        ≡ (ok (failed invalid_transaction), (execute_tx curves sign_bytes message tx app).1)
  replay_refused tx app h = elim (execute_tx-Accounted curves sign_bytes message tx app).1 [
    | inl (account, p, e, a) ↦
        replayed tx account app p (execute_tx curves sign_bytes message tx app).1
          (execute_tx-Accounted curves sign_bytes message tx app).0 a
    | inr (e, a) ↦ ground (arith, h, e)
  ]

  -- A transaction that succeeds raises the nonce of its account by one, modulo 2 ^ 64, from the nonce
  -- that it carries; one that does not succeed changes no nonce. The nonces of the other accounts are
  -- what they were.
  pub execute_tx_lem :
      (tx : Transaction M) (app : Application M V) (name : Bytes)
      → nonce_in (execute_tx curves sign_bytes message tx app).1.accounts name ≡ (
          if succeeded (execute_tx curves sign_bytes message tx app).0
          then if bytes_eq tx.account name
            then some (add_u64 tx.nonce 1)
            else nonce_in app.accounts name
          else nonce_in app.accounts name)
  execute_tx_lem tx app name = elim (execute_tx-Accounted curves sign_bytes message tx app).1 [
    | inl (account, p, e, a) ↦ rw (e) (
        ap (λ s. nonce_in s name) a
        ∙ nonce_in-bumped tx account app.accounts name
        ∙ ap
            (λ n.
              if bytes_eq tx.account name then some (add_u64 n 1) else nonce_in app.accounts name)
            (sym
              (verified_parts curves sign_bytes (get_account app) tx app.chain_id account
                p.verified).1))
    | inr (e, a) ↦ rw (e) (ap (λ s. nonce_in s name) a)
  ]
