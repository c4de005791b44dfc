-- ===== src/Examples/Modules.antt =====
-- The build of a module, the manager of the modules' stores, and an undelegation.
use punnet_sdk.Base.{ℕ, ◌≡◌, refl, true, false, List, [], ◌∷◌, ◌++◌, some, ok}
use punnet_sdk.Store.Prefix
use punnet_sdk.Capability.Manager.{
  CapabilityManager, is_module_registered, create_prefixed_store, given, has_slash,
  modules_isolated, modules_nested,
}
use punnet_sdk.Base.Bytes.{Bytes, codes, bytes_eq}
use punnet_sdk.Base.Dict.{lookup}
use punnet_sdk.Types.AccountName
use punnet_sdk.Types.Coin.{Coin}
use punnet_sdk.Store.Objects.{Objects}
use punnet_sdk.Store.Balance.{BalanceStore}
use punnet_sdk.Capability.Validators as ByCapability
use punnet_sdk.Types.Coin
use punnet_sdk.Effects.Execute.{State}
use punnet_sdk.Store.Objects
use punnet_sdk.Store.Balance.Amounts.{put}
use punnet_sdk.Store.Validators
use punnet_sdk.Store.Validators.{Delegation, DelegationStore, new_delegation, delegation_key}
use punnet_sdk.Effects.Effect.{Effect, transfers, writes}
use punnet_sdk.Module.Base.{HandlerTypes}
use punnet_sdk.Module.Builder.{new_module_builder, build}
use punnet_sdk.Module.Built.{BuilderCall, dependency, msg_handler, calls, first_error, build_lem}
use punnet_sdk.Staking.Messages.{Stake}
use punnet_sdk.Staking.Handlers.{StakingValue, delegation_value, stake_event, staking_pool}

abbrev alice : Bytes
alice = codes "alice"

abbrev junk : ℕ → Coin
junk n = record { denom = codes "junk"; amount = n }

abbrev plain : HandlerTypes
plain = record { Msg = ℕ; Query = ℕ; Begin = ℕ; End = ℕ; Init = ℕ; Export = ℕ }

abbrev staking_calls : List (BuilderCall plain)
staking_calls = dependency (codes "bank") ∷ msg_handler (codes "delegate") (some 1) ∷ []

build_lem_example :
    build (calls staking_calls (new_module_builder (codes "staking")))
    ≡ first_error
        (calls staking_calls (new_module_builder (codes "staking")))
        (calls staking_calls (new_module_builder (codes "staking"))).error
build_lem_example = build_lem (codes "staking") staking_calls

-- A delegation of five shares, and an undelegation of three.
abbrev held : Delegation
held = new_delegation alice (1 ∷ []) 5

abbrev held_store : DelegationStore
held_store = record { entries = (delegation_key alice (1 ∷ []), held) ∷ []; closed = false }

abbrev withdrawal : Stake
withdrawal = record { delegator = alice; validator = 1 ∷ []; amount = junk 3 }

abbrev no_balances : BalanceStore
no_balances = record { entries = []; closed = false }

abbrev vault : State
vault = record { store = []; balances = put no_balances staking_pool (codes "junk") 9; events = [] }

abbrev withdrawal_effects : List (Effect StakingValue)
withdrawal_effects =
    transfers staking_pool alice (junk 3 ∷ [])
    ∷ writes (codes "delegation") (delegation_key alice (1 ∷ []))
        (delegation_value (new_delegation alice (1 ∷ []) 2))
    ∷ stake_event (codes "staking.undelegated") withdrawal 9
    ∷ []

-- Three modules, the name of one of which goes on behind that of another.
abbrev manager : CapabilityManager
manager = record {
  modules = (codes "auth", true) ∷ (codes "bank", true) ∷ (codes "bank/escrow", true) ∷ [];
  backing = [];
}

registered_all :
    (is_module_registered manager (codes "auth") ≡ true)
    × (is_module_registered manager (codes "bank") ≡ true)
    × (is_module_registered manager (codes "bank/escrow") ≡ true)
unfolding is_module_registered lookup bytes_eq
registered_all = (refl, refl, refl)

no_slashes : (has_slash (codes "auth") ≡ false) × (has_slash (codes "bank") ≡ false)
unfolding has_slash
no_slashes = (refl, refl)

names_differ : bytes_eq (codes "auth") (codes "bank") ≡ false
unfolding bytes_eq
names_differ = refl

modules_isolated_example :
    (create_prefixed_store manager (codes "auth") ≡ ok (given manager (codes "auth")))
    × (create_prefixed_store manager (codes "bank") ≡ ok (given manager (codes "bank")))
    × ((Prefix.set (given manager (codes "auth")) (1 ∷ 2 ∷ []) (7 ∷ [])).0 ≡ ok tt)
    × ((j : Bytes)
        → Prefix.get
            (record (given manager (codes "bank")) {
              parent = (Prefix.set (given manager (codes "auth")) (1 ∷ 2 ∷ []) (7 ∷ [])).1.parent;
            })
            j
          ≡ Prefix.get (given manager (codes "bank")) j)
modules_isolated_example =
    modules_isolated manager (codes "auth") (codes "bank") 1 (2 ∷ []) (7 ∷ []) registered_all.0
      registered_all.1 no_slashes.0 no_slashes.1 names_differ

modules_nested_example :
    (create_prefixed_store manager (codes "bank") ≡ ok (given manager (codes "bank")))
    × (create_prefixed_store manager (codes "bank/escrow")
        ≡ ok (given manager (codes "bank/escrow")))
    × (Prefix.get
          (record (given manager (codes "bank")) {
            parent =
                (Prefix.set (given manager (codes "bank/escrow")) (1 ∷ 2 ∷ []) (7 ∷ [])).1.parent;
          })
          (codes "escrow" ++ 47 ∷ 1 ∷ 2 ∷ [])
        ≡ ok (7 ∷ []))
modules_nested_example =
    modules_nested manager (codes "bank") (codes "escrow") 1 (2 ∷ []) (7 ∷ []) registered_all.1
      registered_all.2
