-- ===== src/Effects/Schedule.antt =====
-- effects/graph.go: the search for cycles; effects/scheduler.go: the batches. Both searches take
-- fuel, and `none` means that it ran out.
pub mod Acyclic
pub mod Ready
pub mod Rounds
pub mod Carried
pub mod Conflicts
pub mod Batches
use punnet_sdk.Base.{
  ℕ, zero, suc, ◌+◌, Bool, true, false, List, [], ◌∷◌, ◌++◌, Option, none, some, length, get_elem?,
  ltb, ◌==◌, if◌then◌else◌, Outcome, ok, err, ◌>>=◌, ◌>>◌, nothing_ready, graph_has_cycles,
  conflict_detected,
}
use punnet_sdk.Effects.Effect.{Effect, validate_effects, detect_conflict}
use punnet_sdk.Effects.Graph.{Node, Graph, contains, dependencies_at, graph_of}

-- `visited` and `recStack`
abbrev pub Marks : Type 0
Marks = List ℕ × List ℕ

-- `recStack[i] = false`
unfoldable pub unmark : ℕ → List ℕ → List ℕ
unmark i [] = []
unmark i (x ∷ xs) = let rest = unmark i xs in if x == i then rest else x ∷ rest

-- The loop over the dependencies: it stops at the first cycle.
unfoldable pub search_all :
    (ℕ → Marks → Option (Bool × Marks)) → List ℕ → Marks → Option (Bool × Marks)
search_all visit [] s = some (false, s)
search_all visit (d ∷ ds) s = elim (visit d s) [
  | none ↦ none
  | some (found, s') ↦ elim found [ true ↦ some (true, s') | false ↦ search_all visit ds s' ]
]

-- The end of `hasCycleUtil`.
unfoldable pub leave : ℕ → Option (Bool × Marks) → Option (Bool × Marks)
unfolding unmark
leave i none = none
leave i (some (found, (visited, stack))) =
    if found then some (true, (visited, stack)) else some (false, (visited, unmark i stack))

module _ {V : Type 0} where
  unfoldable pub has_cycle_util : ℕ → List (Node V) → ℕ → Marks → Option (Bool × Marks)
  unfolding search_all leave
  has_cycle_util zero nodes i s = none
  has_cycle_util (suc fuel) nodes i (visited, stack) =
      let deeper = leave i (
        search_all (has_cycle_util fuel nodes) (dependencies_at nodes i)
          (i ∷ visited, i ∷ stack)) in
      if contains stack i
      then some (true, (visited, stack))
      else if contains visited i
      then some (false, (visited, stack))
      else deeper

  -- The loop of `HasCycles` over the nodes from `i` on.
  unfoldable pub has_cycles_from : ℕ → List (Node V) → ℕ → List (Node V) → Marks → Option Bool
  has_cycles_from fuel nodes i [] s = some false
  has_cycles_from fuel nodes i (n ∷ ns) s = elim (has_cycle_util fuel nodes i s) [
    | none ↦ none
    | some (found, s') ↦ elim found [
      | true ↦ some true
      | false ↦ has_cycles_from fuel nodes (i + 1) ns s'
    ]
  ]

  unfoldable pub has_cycles : Graph V → Option Bool
  unfolding has_cycle_util has_cycles_from
  has_cycles g = has_cycles_from (length g.nodes) g.nodes 0 g.nodes ([], [])

-- Every dependency is scheduled.
unfoldable pub all_scheduled : List ℕ → List ℕ → Bool
all_scheduled scheduled [] = true
all_scheduled scheduled (d ∷ ds) =
    if contains scheduled d then all_scheduled scheduled ds else false

-- The effects of a batch, of which all run side by side, and its level.
pub record Batch (V : Type 0) : Type 0 where
  pub effects : List (Effect V)
  pub level : ℕ

module _ {V : Type 0} where
  -- `findReadyNodes`, from the node at `i` on.
  unfoldable pub find_ready : List ℕ → ℕ → List (Node V) → List ℕ
  unfolding all_scheduled
  find_ready scheduled i [] = []
  find_ready scheduled i (n ∷ ns) =
      let rest = find_ready scheduled (i + 1) ns in
      if contains scheduled i
      then rest
      else if all_scheduled scheduled n.dependencies_of
      then i ∷ rest
      else rest

  -- The loop of `Schedule`, as the positions that each round schedules. `scheduled` has each
  -- position once, so its length is that of the map.
  unfoldable pub rounds : ℕ → List (Node V) → List ℕ → Option (Outcome (List (List ℕ)))
  unfolding find_ready
  rounds zero nodes scheduled = none
  rounds (suc fuel) nodes scheduled =
      let batch = find_ready scheduled 0 nodes in
      let more : Option (Outcome (List (List ℕ))) = elim (rounds fuel nodes (scheduled ++ batch)) [
        | none ↦ none
        | some r ↦ some (r >>= λ batches. ok (batch ∷ batches))
      ] in
      if ltb (length scheduled) (length nodes)
      then elim batch [ [] ↦ some (err nothing_ready) | _ ∷ _ ↦ more ]
      else some (ok [])

  -- `effects[i] = s.graph.Nodes[nodeIdx].Effect`; the positions are in range.
  unfoldable pub effects_of : List (Node V) → List ℕ → List (Effect V)
  effects_of nodes [] = []
  effects_of nodes (i ∷ is) = elim (get_elem? nodes i) [
    | none ↦ effects_of nodes is
    | some n ↦ n.effect ∷ effects_of nodes is
  ]

  unfoldable pub make_batches : ℕ → List (Node V) → List (List ℕ) → List (Batch V)
  unfolding effects_of
  make_batches level nodes [] = []
  make_batches level nodes (b ∷ bs) =
      record { effects = effects_of nodes b; level = level } ∷ make_batches (level + 1) nodes bs

  unfoldable pub schedule : Graph V → Option (Outcome (List (Batch V)))
  unfolding has_cycles rounds make_batches
  schedule g = elim (has_cycles g) [
    | none ↦ none
    | some cyclic ↦
        if cyclic
        then some (err graph_has_cycles)
        else elim (rounds (length g.nodes + 1) g.nodes []) [
          | none ↦ none
          | some r ↦ some (r >>= λ batches. ok (make_batches 0 g.nodes batches))
        ]
  ]

  unfoldable pub schedule_effects : List (Effect V) → Option (Outcome (List (Batch V)))
  unfolding schedule graph_of validate_effects
  schedule_effects effects = elim (validate_effects effects) [
    | err e ↦ some (err e)
    | ok _ ↦ schedule (graph_of effects)
  ]

  -- The inner loop of `ValidateBatches`: no later effect of the batch conflicts with `e`.
  unfoldable pub check_against : Effect V → List (Effect V) → Outcome (Unit {0})
  check_against e [] = ok tt
  check_against e (f ∷ fs) = elim (detect_conflict e f) [
    | none ↦ check_against e fs
    | some _ ↦ err conflict_detected
  ]

  unfoldable pub validate_batch : List (Effect V) → Outcome (Unit {0})
  unfolding check_against
  validate_batch [] = ok tt
  validate_batch (e ∷ es) = do check_against e es; validate_batch es

  unfoldable pub validate_batches : List (Batch V) → Outcome (Unit {0})
  unfolding validate_batch
  validate_batches [] = ok tt
  validate_batches (b ∷ bs) = do validate_batch b.effects; validate_batches bs

  -- `EffectCount` and `ExtractEffects`
  unfoldable pub effect_count : List (Batch V) → ℕ
  effect_count [] = 0
  effect_count (b ∷ bs) = length b.effects + effect_count bs

  unfoldable pub extract_effects : List (Batch V) → List (Effect V)
  extract_effects [] = []
  extract_effects (b ∷ bs) = b.effects ++ extract_effects bs
