-- ===== src/Examples/Money.antt =====
-- A store in which alice has 10 atom and bob has 4, a send and a multi-send.
use mathlib.Core.List.{Permᴰ}
use punnet_sdk.Base.{
  ◌++◌, ℕ, ◌≤◌, ◌≡◌, refl, false, List, [], ◌∷◌, ok, arith, max_u64, if◌then◌else◌, add_u64,
}
use punnet_sdk.Base.Bytes.{Bytes, codes, bytes_eq}
use punnet_sdk.Base.Dict.{lookup, insert}
use punnet_sdk.Types.AccountName
use punnet_sdk.Types.Coin
use punnet_sdk.Types.Coin.{Coin}
use punnet_sdk.Types.Coins
use punnet_sdk.Effects.Effect.{Effect, transfers}
use punnet_sdk.Store.Objects
use punnet_sdk.Store.Balance
use punnet_sdk.Store.Balance.{BalanceStore, Balance, balance_key, new_balance}
use punnet_sdk.Store.Balance.Keys.{balance_key_injective}
use punnet_sdk.Store.Balance.Amounts.{IsStore, IsName, put-IsStore, put, stored}
use punnet_sdk.Store.Balance.Transfer.{Transferred, transfer_lem, transfer_succeeds}
use punnet_sdk.Capability.Balances.{get_balance, set_balance, check_place, get_balance-set_balance}
use punnet_sdk.Bank.Messages.{
  MsgSend, Party, MsgMultiSend, validate_multi_send, multi_send_signers, validate_parties,
  validate_party, total_parties, total_coins, check_totals, check_extra, collect_signers,
}
use punnet_sdk.Bank.Messages.Totals.{sum_parties, validate_multi_send_balanced}
use punnet_sdk.Bank.Handlers.Query.{handle_query_balance_lem}
use punnet_sdk.Bank.Handlers.{
  handle_query_balance, decimal, RangeOrder, send_event, handle_multi_send, multi_send_event,
  is_signer, check_inputs, check_coins, output_needs, add_needs, distribute_inputs,
  distribute_coins, distribute, to_transfer,
}
use punnet_sdk.Effects.Execute.{State}
use punnet_sdk.Bank.Handlers.Needs.{IsRangeOrder, sum_for}
use punnet_sdk.Bank.Handlers.Distribute.{sent, received}
use punnet_sdk.Bank.Handlers.MultiSend.{handle_multi_send_lem}

abbrev alice : Bytes
alice = codes "alice"

abbrev bob : Bytes
bob = codes "bob"

abbrev atom : Bytes
atom = codes "atom"

abbrev empty : BalanceStore
empty = record { entries = []; closed = false }

abbrev shop : BalanceStore
shop = put (put empty alice atom 10) bob atom 4

empty-IsStore : IsStore empty
unfolding lookup
empty-IsStore a d b v e = cc

alice-IsName : IsName alice
unfolding AccountName.is_valid AccountName.all_name_chars AccountName.is_name_char
alice-IsName = refl

bob-IsName : IsName bob
unfolding AccountName.is_valid AccountName.all_name_chars AccountName.is_name_char
bob-IsName = refl

shop-IsStore : IsStore shop
shop-IsStore =
    put-IsStore (put empty alice atom 10) bob atom 4 bob-IsName (omega arith)
      (put-IsStore empty alice atom 10 alice-IsName (omega arith) empty-IsStore)

atom-IsDenom : bytes_eq atom [] ≡ false
unfolding bytes_eq
atom-IsDenom = refl

alice-stored : stored shop alice atom ≡ 10
unfolding lookup insert balance_key bytes_eq new_balance
alice-stored = refl

bob-stored : stored shop bob atom ≡ 4
unfolding lookup insert balance_key bytes_eq new_balance
bob-stored = refl

balance_key-injective_example : (alice ≡ alice) × (atom ≡ atom)
balance_key-injective_example =
    balance_key_injective alice alice atom atom alice-IsName alice-IsName refl

transfer_lem_example : Transferred shop alice bob atom 3 (Balance.transfer shop alice bob atom 3)
transfer_lem_example = transfer_lem shop alice bob atom 3 shop-IsStore

transfer-succeeds_example : (Balance.transfer shop alice bob atom 3).0 ≡ ok tt
transfer-succeeds_example =
    transfer_succeeds shop alice bob atom 3 shop-IsStore alice-IsName bob-IsName atom-IsDenom refl
      (omega (arith, alice-stored)) (omega (arith, bob-stored))

get_balance-set_balance_example :
    get_balance (set_balance shop alice atom 6).1 bob atom
    ≡ ok (
        if bytes_eq alice bob
        then (if bytes_eq atom atom then 6 else stored shop bob atom)
        else stored shop bob atom)
get_balance-set_balance_example =
    get_balance-set_balance shop alice atom shop-IsStore 6 bob atom alice-IsName atom-IsDenom
      bob-IsName atom-IsDenom refl (omega arith)

abbrev coin : ℕ → Coin
coin n = record { denom = atom; amount = n }

abbrev send : MsgSend
send = record { from = alice; to = bob; amount = coin 3 }

abbrev send_effects : List (Effect ℕ)
send_effects = transfers alice bob (coin 3 ∷ []) ∷ send_event send 7 ∷ []

abbrev books : State
books = record { store = []; balances = shop; events = [] }

abbrev party : Bytes → ℕ → Party
party a n = record { address = a; coins = coin n ∷ [] }

-- Two senders, and two receivers that want other amounts.
abbrev multi_send : MsgMultiSend
multi_send = record {
  inputs = party alice 5 ∷ party bob 4 ∷ [];
  outputs = party (codes "carol") 6 ∷ party (codes "dave") 3 ∷ [];
}

multi_send-valid : validate_multi_send multi_send ≡ ok tt
unfolding validate_multi_send validate_parties validate_party total_parties total_coins check_totals
    check_extra AccountName.is_valid AccountName.all_name_chars AccountName.is_name_char bytes_eq
    Coin.is_valid Coin.is_positive Coins.is_valid Coins.all_valid Coins.is_ordered Coins.not_above
    Coins.is_all_positive Coins.all_positive lookup insert add_u64
multi_send-valid = refl

validate_multi_send-balanced_example :
    (sum_parties atom multi_send.inputs ≡ sum_parties atom multi_send.outputs)
    × (sum_parties atom multi_send.inputs ≤ max_u64)
validate_multi_send-balanced_example =
    validate_multi_send_balanced multi_send atom ((omega arith, tt), ((omega arith, tt), tt))
      ((omega arith, tt), ((omega arith, tt), tt)) multi_send-valid

-- Of two accounts the second is met first.
abbrev backwards : RangeOrder
backwards from c [] = []
backwards from c (x ∷ []) = x ∷ []
backwards from c (x ∷ y ∷ m) = y ∷ x ∷ m

backwards-IsRangeOrder : IsRangeOrder backwards
backwards-IsRangeOrder from c [] = Permᴰ.nil
backwards-IsRangeOrder from c (x ∷ []) = Permᴰ.cons refl Permᴰ.nil
backwards-IsRangeOrder from c (x ∷ y ∷ m) = Permᴰ.swap refl refl

abbrev multi_send_effects : List (Effect ℕ)
multi_send_effects =
    transfers alice (codes "dave") (coin 3 ∷ [])
    ∷ transfers alice (codes "carol") (coin 2 ∷ [])
    ∷ transfers bob (codes "carol") (coin 4 ∷ [])
    ∷ multi_send_event multi_send 7
    ∷ []

multi_send-handled : handle_multi_send backwards shop alice 7 multi_send ≡ ok multi_send_effects
unfolding handle_multi_send is_signer multi_send_signers collect_signers check_inputs check_coins
    get_balance check_place AccountName.is_valid AccountName.all_name_chars AccountName.is_name_char
    bytes_eq Balance.get Balance.check_key Objects.get lookup insert balance_key new_balance
    output_needs add_needs distribute_inputs distribute_coins distribute to_transfer add_u64
multi_send-handled = refl

handle_multi_send_lem_example :
    (sent bob atom multi_send_effects ≡ sum_for bob atom multi_send.inputs)
    × (received bob atom multi_send_effects ≡ sum_for bob atom multi_send.outputs)
handle_multi_send_lem_example =
    handle_multi_send_lem backwards shop alice 7 multi_send multi_send_effects bob atom
      backwards-IsRangeOrder ((omega arith, tt), ((omega arith, tt), tt))
      ((omega arith, tt), ((omega arith, tt), tt)) multi_send-valid multi_send-handled

handle_query_balance_lem_example :
    handle_query_balance shop (bob ++ (codes "/" ++ atom)) ≡ ok (decimal (stored shop bob atom))
handle_query_balance_lem_example =
    handle_query_balance_lem shop bob atom shop-IsStore bob-IsName atom-IsDenom refl
