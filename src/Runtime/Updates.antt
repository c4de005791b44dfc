-- ===== src/Runtime/Updates.antt =====
-- runtime/lifecycle.go: `deduplicateValidatorUpdates`.
use punnet_sdk.Base.{ℕ, List, [], ◌∷◌, Option, none, some, if◌then◌else◌, ◌≡◌, refl, ◌∙◌, ap}
use punnet_sdk.Base.Bytes.{Bytes, bytes_eq}
use punnet_sdk.Base.Dict.{Dict, lookup, insert, lookup-insert, Distinct, insert-Distinct}

-- `ValidatorUpdate`: the public key, with the power. The `updateMap` keeps its keys in the order of
-- their first update, as `keyOrder` does.
abbrev pub ValidatorUpdate : Type 0
ValidatorUpdate = Bytes × ℕ

unfoldable pub add_updates : Dict ℕ → List ValidatorUpdate → Dict ℕ
add_updates seen [] = seen
add_updates seen ((key, power) ∷ updates) = add_updates (insert key power seen) updates

unfoldable pub deduplicate_validator_updates : List ValidatorUpdate → List ValidatorUpdate
unfolding add_updates
deduplicate_validator_updates updates = add_updates [] updates

-- The last update of a key, or else the value before them.
abbrev pub last_update : Bytes → Option ℕ → List ValidatorUpdate → Option ℕ
last_update key before [] = before
last_update key before ((k, power) ∷ updates) =
    last_update key (if bytes_eq k key then some power else before) updates

lookup-add_updates :
    (key : Bytes) (seen : Dict ℕ) (updates : List ValidatorUpdate)
    → lookup key (add_updates seen updates) ≡ last_update key (lookup key seen) updates
unfolding add_updates
lookup-add_updates key seen [] = refl
lookup-add_updates key seen ((k, power) ∷ updates) =
    lookup-add_updates key (insert k power seen) updates
    ∙ ap (λ o. last_update key o updates) (lookup-insert k key power seen)

add_updates-Distinct :
    (seen : Dict ℕ) (updates : List ValidatorUpdate)
    → Distinct seen
    → Distinct (add_updates seen updates)
unfolding add_updates
add_updates-Distinct seen [] d = d
add_updates-Distinct seen ((k, power) ∷ updates) d =
    add_updates-Distinct (insert k power seen) updates (insert-Distinct k power seen d)

-- The updates that a block returns have no key twice, and each key has the power of its last update.
pub deduplicate_validator_updates_lem :
    (updates : List ValidatorUpdate) (key : Bytes)
    → Distinct (deduplicate_validator_updates updates)
      × (lookup key (deduplicate_validator_updates updates) ≡ last_update key none updates)
unfolding deduplicate_validator_updates lookup
deduplicate_validator_updates_lem updates key =
    (add_updates-Distinct [] updates tt, lookup-add_updates key [] updates)
