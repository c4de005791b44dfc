-- ===== src/Runtime/Application.antt =====
-- runtime/application.go: the application, and how it checks and executes a transaction. The state
-- store behind the executor, the balances and the accounts are states of their own; the sign bytes of
-- a transaction and the curves are those of types/transaction.go.
use punnet_sdk.Base.{
  ℕ, Bool, true, false, List, [], ◌∷◌, ◌++◌, if◌then◌else◌, Option, none, some, Outcome, ok, err,
  Error, ◌>>=◌, ◌>>◌, add_u64, key_not_found, not_found, no_block, nil_effects,
}
use punnet_sdk.Base.Bytes.{Bytes}
use punnet_sdk.Types.Signature.{Curves}
use punnet_sdk.Types.Authority.{Account}
use punnet_sdk.Types.Transaction
use punnet_sdk.Types.Transaction.{Transaction, Message, verify}
use punnet_sdk.Store.Objects
use punnet_sdk.Store.Objects.{Objects}
use punnet_sdk.Effects.Effect.{Effect}
use punnet_sdk.Effects.Execute.{State, Event, execute}
use punnet_sdk.Runtime.Context.{
  Context, BlockHeader, new_context, new_read_only_context, collect_effects,
}
use punnet_sdk.Runtime.Router.{Router, route_msg}

pub record Application (M V : Type 0) : Type 0 where
  pub router : Router M V
  pub state : State
  pub accounts : Objects Account
  pub current_header : Option BlockHeader
  pub chain_id : Bytes

-- `TxResult`, with the error that its log tells of.
pub record TxResult : Type 0 where
  pub code : ℕ
  pub log : Option Error
  pub events : List Event

abbrev pub failed : Error → TxResult
failed e = record { code = 1; log = some e; events = [] }

-- A call that executes a transaction: its result or its error, with the application that it leaves.
abbrev pub TxCall : Type 0 → Type 0 → Type 0
TxCall M V = Outcome TxResult × Application M V

abbrev pub refuse : {M V : Type 0} → Error → Application M V → TxCall M V
refuse e app = (ok (failed e), app)

-- `err == store.ErrNotFound`
abbrev pub is_missing : Error → Bool
is_missing key_not_found = true
is_missing _ = false

-- `account.Nonce++`, and the account is stored.
unfoldable pub bump_nonce : Account → Account
bump_nonce account = record account { nonce = add_u64 account.nonce 1 }

module _ {V : Type 0} where
  -- The loop over the messages: their effects in order.
  abbrev pub then_collect :
      List (Effect V)
      → Outcome (List (Effect V)) × Context V
      → (List (Effect V) → Context V → Outcome (List (Effect V)) × Context V)
      → Outcome (List (Effect V)) × Context V
  then_collect all (ok effects, c) f = f (all ++ effects) c
  then_collect all (err e, c) f = (err e, c)

  -- The effects of the handlers, and those that they have put in the context. A slice to which nothing
  -- was appended is nil, which the executor refuses.
  abbrev pub execute_all : List (Effect V) → State → Outcome (List Event) × State
  execute_all [] s = (err nil_effects, s)
  execute_all (e ∷ es) s = execute (e ∷ es) s

module _ {M V : Type 0} where
  -- The account getter.
  abbrev pub get_account : Application M V → Bytes → Outcome Account
  get_account app name = Objects.get app.accounts name

  abbrev pub nonce_stored :
      List Event → Application M V → Outcome (Unit {0}) × Objects Account → TxCall M V
  nonce_stored events app (ok _, accounts) =
      (ok (record { code = 0; log = none; events = events }), record app { accounts = accounts })
  nonce_stored events app (err e, accounts) = (err e, record app { accounts = accounts })

  -- Behind the execution of the effects.
  abbrev pub executed :
      Transaction M → Account → Application M V → Outcome (List Event) × State → TxCall M V
  executed tx account app (ok events, state) =
      nonce_stored events (record app { state = state })
        (Objects.set app.accounts tx.account (bump_nonce account))
  executed tx account app (err e, state) = refuse e (record app { state = state })

  unfoldable pub run_effects :
      Transaction M → Account → Application M V → Outcome (List (Effect V)) × Context V → TxCall M V
  unfolding bump_nonce
  run_effects tx account app (ok effects, c) =
      executed tx account app (execute_all (effects ++ (collect_effects c).0) app.state)
  run_effects tx account app (err e, c) = refuse e app

module _ {M V : Type 0} (message : Message M) where
  unfoldable pub route_messages :
      Router M V → Context V → List M → List (Effect V) → Outcome (List (Effect V)) × Context V
  route_messages r c [] all = (ok all, c)
  route_messages r c (m ∷ ms) all =
      then_collect all (route_msg message r c m) (λ all' c'. route_messages r c' ms all')

-- `executeTx` and `CheckTx`.
module _ {M V : Type 0} (curves : Curves) (sign_bytes : Transaction M → Bytes → ℕ → Outcome Bytes)
    (message : Message M) where
  abbrev pub in_context :
      Transaction M → Account → Application M V → Outcome (Context V) → TxCall M V
  in_context tx account app (ok c) =
      run_effects tx account app (route_messages message app.router c tx.messages [])
  in_context tx account app (err e) = (err e, app)

  abbrev pub in_block : Transaction M → Account → Application M V → Option BlockHeader → TxCall M V
  in_block tx account app none = (err no_block, app)
  in_block tx account app (some header) = in_context tx account app (new_context header tx.account)

  abbrev pub authorized :
      Transaction M → Account → Application M V → Outcome (Unit {0}) → TxCall M V
  authorized tx account app (ok _) = in_block tx account app app.current_header
  authorized tx account app (err e) = refuse e app

  abbrev pub with_account : Transaction M → Application M V → Outcome Account → TxCall M V
  with_account tx app (ok account) =
      authorized tx account app (verify curves sign_bytes (get_account app) tx app.chain_id account)
  with_account tx app (err e) = if is_missing e then refuse not_found app else (err e, app)

  abbrev pub validated : Transaction M → Application M V → Outcome (Unit {0}) → TxCall M V
  validated tx app (ok _) = with_account tx app (get_account app tx.account)
  validated tx app (err e) = refuse e app

  unfoldable pub execute_tx : Transaction M → Application M V → TxCall M V
  unfolding run_effects route_messages
  execute_tx tx app = validated tx app (Transaction.validate_basic message tx)

  -- `CheckTx` behind the deserialization; `now` is the header that it makes where no block is begun.
  unfoldable pub check_tx : BlockHeader → Transaction M → Application M V → Outcome (Unit {0})
  unfolding route_messages
  check_tx now tx app = do
    Transaction.validate_basic message tx
    account ← get_account app tx.account
    verify curves sign_bytes (get_account app) tx app.chain_id account
    c ← new_read_only_context (elim app.current_header [ none ↦ now | some h ↦ h ]) tx.account
    effects ← (route_messages message app.router c tx.messages []).0
    ok tt
