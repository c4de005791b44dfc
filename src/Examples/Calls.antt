-- ===== src/Examples/Calls.antt =====
-- A payment, an update of an authority, and a transaction that is executed twice.
use punnet_sdk.Base.{
  ℕ, ◌≤◌, ◌<◌, ◌≡◌, refl, sym, ap, Bool, true, false, not, List, [], ◌∷◌, ◌++◌, Option, none, some,
  Outcome, ok, err, arith, if◌then◌else◌, length, add_u64, invalid_transaction, max_u64, All, pos,
}
use punnet_sdk.Base.Bytes.{Bytes, codes, bytes_eq}
use punnet_sdk.Base.Dict.{lookup}
use punnet_sdk.Types.AccountName
use punnet_sdk.Types.Coin.{Coin}
use punnet_sdk.Types.Authority.{Account, Authority}
use punnet_sdk.Types.Signature.{Curves, Signature}
use punnet_sdk.Types.Authorization.{Authorization, authorization, nobody}
use punnet_sdk.Types.Transaction.{Transaction, Message}
use punnet_sdk.Store.Objects.{Objects}
use punnet_sdk.Store.Balance.{BalanceStore}
use punnet_sdk.Store.Objects
use punnet_sdk.Store.Balance.Amounts.{IsStore, IsName}
use punnet_sdk.Store.Accounts.{AccountStore}
use punnet_sdk.Effects.Effect.{Effect, emits, transfers, writes, deletes}
use punnet_sdk.Effects.Execute.{pay_coins, State}
use punnet_sdk.Effects.Execute.Pay.{Paid, IsPayable, pay_coins_lem}
use punnet_sdk.Capability.Accounts.{get_account}
use punnet_sdk.Runtime.Context.{Context, BlockHeader}
use punnet_sdk.Runtime.Router.{Router, MsgHandler}
use punnet_sdk.Runtime.Application.{Application, failed, execute_tx}
use punnet_sdk.Runtime.Accounted.{succeeded}
use punnet_sdk.Runtime.Nonces.{nonce_in, execute_tx_lem, replay_refused}
use punnet_sdk.Auth.Messages.{MsgUpdateAuthority, update_authority}
use punnet_sdk.Auth.Handlers.{handle_update_authority, updated}
use punnet_sdk.Auth.Handlers.Update.{update_in_place}

abbrev alice : Bytes
alice = codes "alice"

abbrev bob : Bytes
bob = codes "bob"

alice-IsName : IsName alice
unfolding AccountName.is_valid AccountName.all_name_chars AccountName.is_name_char
alice-IsName = refl

bob-IsName : IsName bob
unfolding AccountName.is_valid AccountName.all_name_chars AccountName.is_name_char
bob-IsName = refl

abbrev nothing : BalanceStore
nothing = record { entries = []; closed = false }

nothing-IsStore : IsStore nothing
unfolding lookup
nothing-IsStore a d b v e = cc

abbrev junk : ℕ → Coin
junk n = record { denom = codes "junk"; amount = n }

junk-IsPayable : IsPayable (junk 3)
unfolding bytes_eq
junk-IsPayable = (refl, omega arith, omega arith)

pay_coins_lem_example :
    Paid nothing alice bob (junk 3 ∷ []) (pay_coins alice bob (junk 3 ∷ []) nothing)
pay_coins_lem_example =
    pay_coins_lem alice bob alice-IsName bob-IsName (junk 3 ∷ []) nothing (junk-IsPayable, tt)
      nothing-IsStore refl

-- An account with one key, and a curve that accepts its signature.
abbrev key : Bytes
key =
    1 ∷ 2 ∷ 3 ∷ 4 ∷ 5 ∷ 6 ∷ 7 ∷ 8 ∷ 1 ∷ 2 ∷ 3 ∷ 4 ∷ 5 ∷ 6 ∷ 7 ∷ 8 ∷ 1 ∷ 2 ∷ 3 ∷ 4 ∷ 5 ∷ 6 ∷ 7 ∷ 8
    ∷ 1 ∷ 2 ∷ 3 ∷ 4 ∷ 5 ∷ 6 ∷ 7 ∷ 8 ∷ []

abbrev by_key : Authority
by_key = record { threshold = 1; key_weights = (key, 1) ∷ []; account_weights = [] }

abbrev owner : Account
owner = record { name = alice; authority = by_key; nonce = 4; created_at = 1; updated_at = 1 }

abbrev accounts : AccountStore
accounts = record { entries = (alice, owner) ∷ []; closed = false }

abbrev header : BlockHeader
header = record { height = 9; time = 2; chain_id = codes "chain"; proposer = [] }

abbrev query_context : Context Account
query_context = record { header = header; account = alice; collector = []; read_only = true }

abbrev no_authority : Authority
no_authority = record { threshold = 0; key_weights = []; account_weights = [] }

abbrev reset : MsgUpdateAuthority
reset = record { name = alice; new_authority = no_authority }

owner_found : lookup alice accounts.entries ≡ some owner
unfolding lookup bytes_eq
owner_found = refl

update_in_place_example :
    get_account (handle_update_authority accounts query_context (update_authority reset)).1 alice
    ≡ ok (updated owner no_authority 2)
unfolding bytes_eq
update_in_place_example =
    update_in_place accounts query_context reset owner refl alice-IsName owner_found refl

abbrev accepting : Curves
accepting = record { ed25519_verify = λ k m s. bytes_eq k key; verify_secp256r1 = λ k m s. false }

abbrev note : Message ℕ
note = record {
  message_type = λ m. codes "note";
  validate = λ m. ok tt;
  get_signers = λ m. alice ∷ [];
}

abbrev emit_note : MsgHandler ℕ ℕ
emit_note c m = (ok (emits (codes "noted") [] ∷ []), c)

abbrev signed : Signature
signed = record { algorithm = []; pub_key = key; signature = key ++ key }

abbrev tx : Transaction ℕ
tx = record {
  account = alice;
  messages = 1 ∷ [];
  authorization = authorization (signed ∷ []) nobody;
  nonce = 4;
  memo = [];
  fee = record { amount = []; gas_limit = 0 };
  fee_slippage = record { numerator = 0; denominator = 1 };
}

abbrev app : Application ℕ ℕ
app = record {
  router = record {
    msg_handlers = (codes "note", emit_note) ∷ [];
    query_handlers = [];
    modules = [];
  };
  state = record { store = []; balances = nothing; events = [] };
  accounts = accounts;
  current_header = some header;
  chain_id = codes "chain";
}

abbrev sign_bytes : Transaction ℕ → Bytes → ℕ → Outcome Bytes
sign_bytes t chain nonce = ok (nonce ∷ chain)

tx_succeeds : succeeded (execute_tx accepting sign_bytes note tx app).0 ≡ true
unfolding execute_tx punnet_sdk.Types.Transaction.validate_basic AccountName.is_valid
    punnet_sdk.Types.Authorization.validate_basic punnet_sdk.Types.Signature.validate_basic bytes_eq
    punnet_sdk.Store.Objects.get lookup punnet_sdk.Types.Transaction.verify
    punnet_sdk.Types.Authorization.verify_authorization punnet_sdk.Types.Signature.verify
    punnet_sdk.Types.Authorization.calculate_weight punnet_sdk.Types.Authority.has_key
    punnet_sdk.Types.Authority.get_key_weight punnet_sdk.Runtime.Context.new_context
    punnet_sdk.Runtime.Router.route_msg punnet_sdk.Effects.Execute.execute
    punnet_sdk.Base.Dict.insert add_u64 punnet_sdk.Effects.Effect.collector_collect
    punnet_sdk.Effects.Effect.effect_key punnet_sdk.Effects.Effect.validate
    punnet_sdk.Effects.Execute.execute_by_type punnet_sdk.Effects.Execute.execute_effect
    punnet_sdk.Effects.Execute.execute_effects punnet_sdk.Effects.Execute.execute_event
    punnet_sdk.Runtime.Application.bump_nonce punnet_sdk.Runtime.Application.route_messages
    punnet_sdk.Runtime.Application.run_effects punnet_sdk.Runtime.Context.collect_effects
    punnet_sdk.Runtime.Context.validate_header punnet_sdk.Store.Objects.set
    AccountName.all_name_chars AccountName.is_name_char
    punnet_sdk.Types.Authorization.count_signature
    punnet_sdk.Types.Authorization.validate_signatures
    punnet_sdk.Types.Authorization.verify_signatures punnet_sdk.Types.Authorization.weigh_signature
    punnet_sdk.Types.Authorization.weigh_signatures punnet_sdk.Types.Signature.get_algorithm
    punnet_sdk.Types.Signature.is_valid_algorithm punnet_sdk.Types.Signature.validate_sizes
    punnet_sdk.Types.Signature.verify_by punnet_sdk.Types.Signature.verify_validated
    punnet_sdk.Types.Transaction.check_fee_coins punnet_sdk.Types.Transaction.is_among
    punnet_sdk.Types.Transaction.validate_fee punnet_sdk.Types.Transaction.validate_messages
    punnet_sdk.Types.Transaction.validate_ratio
tx_succeeds = refl

replay_refused_example :
    execute_tx accepting sign_bytes note tx (execute_tx accepting sign_bytes note tx app).1
    ≡ (ok (failed invalid_transaction), (execute_tx accepting sign_bytes note tx app).1)
replay_refused_example = replay_refused accepting sign_bytes note tx app tx_succeeds

execute_tx_lem_example : nonce_in (execute_tx accepting sign_bytes note tx app).1.accounts alice ≡ (
    if succeeded (execute_tx accepting sign_bytes note tx app).0
    then if bytes_eq alice alice then some (add_u64 4 1) else nonce_in accounts alice
    else nonce_in accounts alice)
execute_tx_lem_example = execute_tx_lem accepting sign_bytes note tx app alice
