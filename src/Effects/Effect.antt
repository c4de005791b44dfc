-- ===== src/Effects/Effect.antt =====
-- effects/effect.go and effects/*_effect.go. The effects of one value type `V` for each type that the
-- generic effects are used at.
use punnet_sdk.Base.{
  Bool, true, false, not, ◌&&◌, ◌||◌, List, [], ◌∷◌, ◌++◌, Option, none, some, if◌then◌else◌,
  Outcome, ok, err, fail_if, ◌>>◌, invalid_account, invalid_amount, amount_not_positive,
  empty_store_name, empty_key, nil_destination, empty_event_type,
}
use punnet_sdk.Base.Bytes.{Bytes, codes, bytes_eq}
use punnet_sdk.Base.Dict.{Dict}
use punnet_sdk.Types.AccountName
use punnet_sdk.Types.Coins
use punnet_sdk.Types.Coins.{Coins}

pub data EffectType : Type 0 where
  read_type write_type transfer_type event_type delete_type : EffectType

pub data DependencyType : Type 0 where
  account_dependency balance_dependency validator_dependency generic_dependency : DependencyType

pub record Dependency : Type 0 where
  pub kind : DependencyType
  pub key : Bytes
  pub read_only : Bool

-- `ReadEffect`, with whether its `Dest` is set, `WriteEffect`, `TransferEffect`, `EventEffect` and
-- `DeleteEffect`.
pub data Effect (V : Type 0) : Type 0 where
  reads : Bytes → Bytes → Bool → Effect V
  writes : Bytes → Bytes → V → Effect V
  transfers : Bytes → Bytes → Coins → Effect V
  emits : Bytes → Dict Bytes → Effect V
  deletes : Bytes → Bytes → Effect V

-- `fullKey`
unfoldable pub full_key : Bytes → Bytes → Bytes
full_key store store_key = store ++ (codes "/" ++ store_key)

-- `balanceKey`: `balance/%s/%s`
unfoldable pub balance_key : Bytes → Bytes → Bytes
balance_key account denom = codes "balance/" ++ (account ++ (codes "/" ++ denom))

-- The dependencies of a transfer for each of its coins.
unfoldable pub coin_dependencies : Bytes → Bytes → Coins → List Dependency
unfolding balance_key
coin_dependencies from to [] = []
coin_dependencies from to (c ∷ cs) =
    record { kind = balance_dependency; key = balance_key from c.denom; read_only = false }
    ∷ record { kind = balance_dependency; key = balance_key to c.denom; read_only = false }
    ∷ coin_dependencies from to cs

-- The first two checks of `Validate` of a read, a write and a delete.
unfoldable pub validate_key : Bytes → Bytes → Outcome (Unit {0})
validate_key store store_key = do
  fail_if (bytes_eq store []) empty_store_name
  fail_if (bytes_eq store_key []) empty_key

module _ {V : Type 0} where
  unfoldable pub effect_type : Effect V → EffectType
  effect_type (reads _ _ _) = read_type
  effect_type (writes _ _ _) = write_type
  effect_type (transfers _ _ _) = transfer_type
  effect_type (emits _ _) = event_type
  effect_type (deletes _ _) = delete_type

  unfoldable pub validate : Effect V → Outcome (Unit {0})
  unfolding validate_key
  validate (reads store store_key dest) = do
    validate_key store store_key
    fail_if (not dest) nil_destination
  validate (writes store store_key value) = validate_key store store_key
  validate (transfers from to amount) = do
    fail_if (not (AccountName.is_valid from)) invalid_account
    fail_if (not (AccountName.is_valid to)) invalid_account
    fail_if (not (Coins.is_valid amount)) invalid_amount
    fail_if (not (Coins.is_all_positive amount)) amount_not_positive
  validate (emits kind attributes) = fail_if (bytes_eq kind []) empty_event_type
  validate (deletes store store_key) = validate_key store store_key

  unfoldable pub dependencies : Effect V → List Dependency
  unfolding full_key coin_dependencies
  dependencies (reads store store_key _) =
      record { kind = generic_dependency; key = full_key store store_key; read_only = true } ∷ []
  dependencies (writes store store_key _) =
      record { kind = generic_dependency; key = full_key store store_key; read_only = false } ∷ []
  dependencies (transfers from to amount) =
      record { kind = account_dependency; key = from; read_only = false }
      ∷ record { kind = account_dependency; key = to; read_only = false }
      ∷ coin_dependencies from to amount
  dependencies (emits _ _) = []
  dependencies (deletes store store_key) =
      record { kind = generic_dependency; key = full_key store store_key; read_only = false } ∷ []

  -- `Key`, the primary key.
  unfoldable pub effect_key : Effect V → Bytes
  unfolding full_key
  effect_key (reads store store_key _) = full_key store store_key
  effect_key (writes store store_key _) = full_key store store_key
  effect_key (transfers from _ _) = from
  effect_key (emits kind _) = codes "event/" ++ kind
  effect_key (deletes store store_key) = full_key store store_key

  -- The type is a write, a transfer or a delete.
  unfoldable pub is_write : Effect V → Bool
  unfolding effect_type
  is_write e = elim (effect_type e) [
    | write_type ↦ true
    | transfer_type ↦ true
    | delete_type ↦ true
    | _ ↦ false
  ]

  unfoldable pub is_read : Effect V → Bool
  unfolding effect_type
  is_read e = elim (effect_type e) [ read_type ↦ true | _ ↦ false ]

  -- `ValidateEffects`
  unfoldable pub validate_effects : List (Effect V) → Outcome (Unit {0})
  unfolding validate
  validate_effects [] = ok tt
  validate_effects (e ∷ es) = do validate e; validate_effects es

pub data ConflictType : Type 0 where
  read_write write_write : ConflictType

pub record Conflict (V : Type 0) : Type 0 where
  pub kind : ConflictType
  pub effect1 : Effect V
  pub effect2 : Effect V
  pub key : Bytes

module _ {V : Type 0} where
  -- `DetectConflict`; `none` is the nil conflict.
  unfoldable pub detect_conflict : Effect V → Effect V → Option (Conflict V)
  unfolding is_write is_read
  detect_conflict e1 e2 =
      if not (bytes_eq (effect_key e1) (effect_key e2))
      then none
      else if is_write e1 && is_write e2
      then some (record { kind = write_write; effect1 = e1; effect2 = e2; key = effect_key e1 })
      else if (is_read e1 && is_write e2) || (is_write e1 && is_read e2)
      then some (record { kind = read_write; effect1 = e1; effect2 = e2; key = effect_key e1 })
      else none

  -- `Collector`: its state is the list of the effects added.
  unfoldable pub collector_add : Effect V → List (Effect V) → Outcome (List (Effect V))
  unfolding validate
  collector_add e effects = do validate e; ok (effects ++ e ∷ [])

  -- `AddMultiple` keeps what it has added before an error, so the state comes back beside it.
  unfoldable pub collector_add_multiple :
      List (Effect V) → List (Effect V) → Outcome (Unit {0}) × List (Effect V)
  unfolding collector_add
  collector_add_multiple [] effects = (ok tt, effects)
  collector_add_multiple (e ∷ es) effects = elim (collector_add e effects) [
    | ok effects' ↦ collector_add_multiple es effects'
    | err x ↦ (err x, effects)
  ]

  -- `Collect`: the effects, and the emptied collector.
  unfoldable pub collector_collect : List (Effect V) → List (Effect V) × List (Effect V)
  collector_collect effects = (effects, [])
