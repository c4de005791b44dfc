-- ===== src/Examples/Effects.antt =====
-- Four effects, of which the third needs the second and the fourth the first.
use punnet_sdk.Base.{
  err, conflict_detected, ℕ, ◌≡◌, ◌&&◌, refl, true, false, List, [], ◌∷◌, ok, some, arith, ltb,
}
use punnet_sdk.Base.Bytes.{codes, bytes_eq}
use punnet_sdk.Base.Dict.{lookup}
use punnet_sdk.Types.AccountName
use punnet_sdk.Types.Coin
use punnet_sdk.Types.Coins
use punnet_sdk.Effects.Optimize.{
  optimize_batches, extract_effects-optimize_batches, validate_batches-optimize_batches,
}
use punnet_sdk.Effects.Effect.{
  Conflict, write_write, effect_key, full_key, is_write, is_read, effect_type, detect_conflict,
  Effect, transfers, reads, writes, validate_effects, validate, validate_key,
}
use punnet_sdk.Effects.Graph.{graph_of}
use punnet_sdk.Effects.Graph.Nodes.{has_dependency}
use punnet_sdk.Effects.Graph.Keys.{dependency_list}
use punnet_sdk.Effects.Graph.Edges.{clash, graph_of_lem}
use punnet_sdk.Effects.Schedule.{Batch, extract_effects, validate_batches, has_cycles}
use punnet_sdk.Effects.Schedule.Acyclic.{has_cycles-false}
use punnet_sdk.Effects.Schedule.Batches.{IsScheduled, schedule_effects_lem, graph_of-Backward}

abbrev uatom : ℕ → Coins.Coins
uatom n = record { denom = codes "uatom"; amount = n } ∷ []

abbrev four : List (Effect ℕ)
four =
    transfers (codes "alice") (codes "bob") (uatom 10)
    ∷ reads (codes "params") (codes "fee") true
    ∷ writes (codes "params") (codes "fee") 5
    ∷ transfers (codes "bob") (codes "carol") (uatom 7)
    ∷ []

four-valid : validate_effects four ≡ ok tt
unfolding validate_effects validate validate_key AccountName.is_valid AccountName.all_name_chars
    AccountName.is_name_char Coins.is_valid Coins.all_valid Coins.is_ordered Coins.not_above
    Coins.is_all_positive Coins.all_positive Coin.is_valid Coin.is_positive bytes_eq lookup
four-valid = refl

schedule_effects_lem_example : IsScheduled four
schedule_effects_lem_example = schedule_effects_lem four four-valid

graph_of_lem_example :
    has_dependency (graph_of four).nodes 3 0
    ≡ (ltb 0 3 && clash (dependency_list four 3) (dependency_list four 0))
graph_of_lem_example = graph_of_lem four 3 0 (omega arith)

has_cycles-false_example : has_cycles (graph_of four) ≡ some false
has_cycles-false_example = has_cycles-false (graph_of four) (graph_of-Backward four)

abbrev first : Effect ℕ
first = writes (codes "params") (codes "fee") 5

abbrev second : Effect ℕ
second = writes (codes "params") (codes "fee") 6

abbrev batch : Effect ℕ → ℕ → Batch ℕ
batch e level = record { effects = e ∷ []; level = level }

abbrev the_conflict : Conflict ℕ
the_conflict = record {
  kind = write_write;
  effect1 = first;
  effect2 = second;
  key = effect_key first;
}

they-conflict : detect_conflict first second ≡ some the_conflict
unfolding detect_conflict effect_key full_key is_write is_read effect_type bytes_eq
they-conflict = refl

extract_effects-optimize_batches_example :
    extract_effects (optimize_batches (batch first 0 ∷ batch second 1 ∷ []) 10)
    ≡ extract_effects (batch first 0 ∷ batch second 1 ∷ [])
extract_effects-optimize_batches_example =
    extract_effects-optimize_batches (batch first 0 ∷ batch second 1 ∷ []) 10

validate_batches-optimize_batches_example :
    validate_batches (optimize_batches (batch first 0 ∷ batch second 1 ∷ []) 10)
    ≡ err conflict_detected
validate_batches-optimize_batches_example =
    validate_batches-optimize_batches first second the_conflict 0 1 10 they-conflict (omega arith)
