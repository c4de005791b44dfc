-- ===== src/Runtime/Accounted.antt =====
-- What `executeTx` of runtime/application.go does to the accounts.
use punnet_sdk.Base.{
  ℕ, ◌≡◌, ◌⊎◌, refl, Bool, true, false, List, ◌==◌, Option, none, some, Outcome, ok, err, arith,
  Bool-cases, inl, inr,
}
use punnet_sdk.Base.Bytes.{Bytes}
use punnet_sdk.Base.Dict.{insert}
use punnet_sdk.Types.Signature.{Curves}
use punnet_sdk.Types.Authority.{Account}
use punnet_sdk.Types.Transaction
use punnet_sdk.Types.Transaction.{Transaction, Message, verify}
use punnet_sdk.Store.Objects
use punnet_sdk.Store.Objects.{Objects}
use punnet_sdk.Effects.Effect.{Effect}
use punnet_sdk.Effects.Execute.{State, Event}
use punnet_sdk.Runtime.Context.{Context, BlockHeader}
use punnet_sdk.Runtime.Application.{
  Application, TxResult, TxCall, bump_nonce, get_account, executed, run_effects, in_context,
  in_block, authorized, with_account, is_missing, validated, execute_tx,
}

abbrev pub succeeded : Outcome TxResult → Bool
succeeded (ok r) = r.code == 0
succeeded (err e) = false

-- The accounts behind a transaction that has succeeded.
abbrev pub bumped : {M : Type 0} → Transaction M → Account → Objects Account → Objects Account
bumped tx account s = record {
  entries = insert tx.account (bump_nonce account) s.entries;
  closed = s.closed;
}

module _ {M V : Type 0} where
  -- The transaction has succeeded and its account's nonce has gone up, or it has not and the accounts
  -- are what they were.
  abbrev Ends : Transaction M → Account → Application M V → TxCall M V → Type 0
  Ends tx account app r =
      (r.1.chain_id ≡ app.chain_id)
      × (((succeeded r.0 ≡ true) × (r.1.accounts ≡ bumped tx account app.accounts))
          ⊎ ((succeeded r.0 ≡ false) × (r.1.accounts ≡ app.accounts)))

  executed-Ends :
      (tx : Transaction M) (account : Account) (app : Application M V)
      (o : Outcome (List Event) × State)
      → Ends tx account app (executed tx account app o)
  unfolding Objects.set
  executed-Ends tx account app (ok events, state) = elim (Bool-cases app.accounts.closed) [
    | inl t ↦ rw (t) (refl, inr (refl, refl))
    | inr t ↦ rw (t) (refl, inl (refl, refl))
  ]
  executed-Ends tx account app (err e, state) = (refl, inr (ground arith, refl))

  run_effects-Ends :
      (tx : Transaction M) (account : Account) (app : Application M V)
      (o : Outcome (List (Effect V)) × Context V)
      → Ends tx account app (run_effects tx account app o)
  unfolding run_effects
  run_effects-Ends tx account app (ok effects, c) = executed-Ends tx account app _
  run_effects-Ends tx account app (err e, c) = (refl, inr (ground arith, refl))

module _ {M V : Type 0} (curves : Curves) (sign_bytes : Transaction M → Bytes → ℕ → Outcome Bytes)
    (message : Message M) where
  in_context-Ends :
      (tx : Transaction M) (account : Account) (app : Application M V) (o : Outcome (Context V))
      → Ends tx account app (in_context curves sign_bytes message tx account app o)
  in_context-Ends tx account app (ok c) = run_effects-Ends tx account app _
  in_context-Ends tx account app (err e) = (refl, inr (refl, refl))

  in_block-Ends :
      (tx : Transaction M) (account : Account) (app : Application M V) (o : Option BlockHeader)
      → Ends tx account app (in_block curves sign_bytes message tx account app o)
  in_block-Ends tx account app none = (refl, inr (refl, refl))
  in_block-Ends tx account app (some header) = in_context-Ends tx account app _

  -- What a transaction has passed that has succeeded.
  pub record Passed (tx : Transaction M) (account : Account) (app : Application M V) : Type 0 where
    pub is_valid : Transaction.validate_basic message tx ≡ ok tt
    pub stored : get_account app tx.account ≡ ok account
    pub verified : verify curves sign_bytes (get_account app) tx app.chain_id account ≡ ok tt

  -- A transaction has succeeded, having passed the checks of an account whose nonce has gone up, or it
  -- has not and the accounts are what they were.
  abbrev pub Accounted : Transaction M → Application M V → TxCall M V → Type 0
  Accounted tx app r =
      (r.1.chain_id ≡ app.chain_id)
      × (((account : Account) × Passed tx account app
            × (succeeded r.0 ≡ true)
            × (r.1.accounts ≡ bumped tx account app.accounts))
          ⊎ ((succeeded r.0 ≡ false) × (r.1.accounts ≡ app.accounts)))

  by_checks :
      (tx : Transaction M) (app : Application M V) (account : Account) (r : TxCall M V)
      → Passed tx account app
      → Ends tx account app r
      → Accounted tx app r
  by_checks tx app account r p (c, inl (e, a)) = (c, inl (account, p, e, a))
  by_checks tx app account r p (c, inr f) = (c, inr f)

  authorized-Accounted :
      (tx : Transaction M) (app : Application M V) (account : Account) (o : Outcome (Unit {0}))
      → Transaction.validate_basic message tx ≡ ok tt
      → get_account app tx.account ≡ ok account
      → verify curves sign_bytes (get_account app) tx app.chain_id account ≡ o
      → Accounted tx app (authorized curves sign_bytes message tx account app o)
  authorized-Accounted tx app account (ok _) v g e =
      by_checks tx app account
        (in_block curves sign_bytes message tx account app app.current_header)
        (record { is_valid = v; stored = g; verified = e })
        (in_block-Ends tx account app app.current_header)
  authorized-Accounted tx app account (err x) v g e = (refl, inr (refl, refl))

  with_account-Accounted :
      (tx : Transaction M) (app : Application M V) (o : Outcome Account)
      → Transaction.validate_basic message tx ≡ ok tt
      → get_account app tx.account ≡ o
      → Accounted tx app (with_account curves sign_bytes message tx app o)
  with_account-Accounted tx app (ok account) v g = authorized-Accounted tx app account _ v g refl
  with_account-Accounted tx app (err e) v g = elim (Bool-cases (is_missing e)) [
    | inl t ↦ rw (t) (refl, inr (refl, refl))
    | inr t ↦ rw (t) (refl, inr (refl, refl))
  ]

  validated-Accounted :
      (tx : Transaction M) (app : Application M V) (o : Outcome (Unit {0}))
      → Transaction.validate_basic message tx ≡ o
      → Accounted tx app (validated curves sign_bytes message tx app o)
  validated-Accounted tx app (ok _) v = with_account-Accounted tx app _ v refl
  validated-Accounted tx app (err e) v = (refl, inr (refl, refl))

  pub execute_tx-Accounted :
      (tx : Transaction M) (app : Application M V)
      → Accounted tx app (execute_tx curves sign_bytes message tx app)
  unfolding execute_tx
  execute_tx-Accounted tx app = validated-Accounted tx app _ refl
