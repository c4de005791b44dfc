-- ===== src/Effects/Schedule/Batches.antt =====
-- `ScheduleEffects` on valid effects, and its check by `ValidateBatches`.
use punnet_sdk.Base.{
  ℕ, ◌+◌, ◌<◌, ◌≡◌, ◌≢◌, ◌⊎◌, refl, true, false, List, [], ◌∷◌, ◌++◌, some, arith, length, inl, inr,
  ok,
}
use punnet_sdk.Effects.Effect.{Effect, validate_effects}
use punnet_sdk.Effects.Graph.{contains, graph_of}
use punnet_sdk.Effects.Graph.Nodes.{has_dependency-lt}
use punnet_sdk.Effects.Graph.Keys.{dependency_list}
use punnet_sdk.Effects.Graph.Edges.{clash, graph_of_lem, length-graph_of}
use punnet_sdk.Effects.Schedule.{schedule, schedule_effects, validate_batches}
use punnet_sdk.Effects.Schedule.Acyclic.{Backward, has_cycles-false}
use punnet_sdk.Effects.Schedule.Ready.{Unique}
use punnet_sdk.Effects.Schedule.Carried.{batches_of, make_batches-graph_of}
use punnet_sdk.Effects.Schedule.Conflicts.{HasNoConflict, no_conflict_lem, validate_batch_lem}
use punnet_sdk.Effects.Schedule.Rounds.{Runs, rounds_lem}

order : (i j : ℕ) → i ≢ j → (i < j) ⊎ (j < i)
order i j h = ground arith

not_in_nil : (i : ℕ) → contains [] i ≡ true → ⊥
unfolding contains
not_in_nil i h = cc

module _ {V : Type 0} where
  -- `batches` are positions in `es` that run after those of `s`: each batch has positions that have
  -- not run, each once, and every earlier effect that clashes with one of them has run; in the end
  -- every position has run.
  abbrev pub Plan : List (Effect V) → List ℕ → List (List ℕ) → Type 0
  Plan es s [] = (i : ℕ) → i < length es → contains s i ≡ true
  Plan es s (b ∷ bs) =
      Unique b
      × ((i : ℕ)
          → contains b i ≡ true
          → (i < length es)
            × (contains s i ≡ false)
            × ((d : ℕ)
                → d < i
                → clash (dependency_list es i) (dependency_list es d) ≡ true
                → contains s d ≡ true))
      × Plan es (s ++ b) bs

  pub graph_of-Backward : (es : List (Effect V)) → Backward (graph_of es).nodes
  graph_of-Backward es j d edge =
      let lt : j < length es =
        rw length-graph_of at (has_dependency-lt (graph_of es).nodes j d edge) in
      ground (arith, graph_of_lem es j d lt)

  Runs-Plan :
      (es : List (Effect V)) (s : List ℕ) (bs : List (List ℕ))
      → Runs (graph_of es).nodes s bs
      → Plan es s bs
  Runs-Plan es s [] r = λ i lt. r i (rw length-graph_of lt)
  Runs-Plan es s (b ∷ bs) r = (
    r.0,
    λ i m.
        let (lt, new, deps) = r.1 i m in
        let lt' : i < length es = rw length-graph_of at lt in
        (lt', new, λ d before c. deps d (rw (graph_of_lem es i d lt', c) (ground arith))),
    Runs-Plan es (s ++ b) bs r.2,
  )

  -- In a plan no two effects of a batch clash.
  apart :
      (es : List (Effect V)) (s b : List ℕ) (i j : ℕ)
      → ((x : ℕ)
          → contains b x ≡ true
          → (x < length es)
            × (contains s x ≡ false)
            × ((d : ℕ)
                → d < x
                → clash (dependency_list es x) (dependency_list es d) ≡ true
                → contains s d ≡ true))
      → contains b i ≡ true
      → contains b j ≡ true
      → i ≢ j
      → HasNoConflict es i j
  apart es s b i j h m n differ =
      let (_, new_i, deps_i) = h i m in
      let (_, new_j, deps_j) = h j n in
      elim (order i j differ) [
        | inl lt ↦ (no_conflict_lem es j i (ground (arith, deps_j i lt, new_i))).1
        | inr gt ↦ (no_conflict_lem es i j (ground (arith, deps_i j gt, new_j))).0
      ]

  Plan-validate_batches :
      (level : ℕ) (es : List (Effect V)) (s : List ℕ) (bs : List (List ℕ))
      → Plan es s bs
      → validate_batches (batches_of level es bs) ≡ ok tt
  unfolding validate_batches
  Plan-validate_batches level es s [] p = refl
  Plan-validate_batches level es s (b ∷ bs) p =
      rw
        (
          validate_batch_lem es b p.0 (λ i j. apart es s b i j p.1),
          Plan-validate_batches (level + 1) es (s ++ b) bs p.2,
        )
        refl

  -- Scheduling succeeds with batches of the positions `bs` of the list, which run every effect once,
  -- each after all the earlier effects of the list that it clashes with, and which pass the check
  -- for conflicts inside a batch.
  abbrev pub IsScheduled : List (Effect V) → Type 0
  IsScheduled es =
      (bs : List (List ℕ)) × (schedule_effects es ≡ some (ok (batches_of 0 es bs)))
      × Plan es [] bs
      × (validate_batches (batches_of 0 es bs) ≡ ok tt)

  -- The scheduler succeeds on every list of valid effects, within its fuel. Its batches run every
  -- effect of the list once, each after all the earlier effects that it clashes with, which are those
  -- that share a key with it that one of the two writes; and the batches pass `ValidateBatches`.
  pub schedule_effects_lem : (es : List (Effect V)) → validate_effects es ≡ ok tt → IsScheduled es
  unfolding schedule_effects schedule
  schedule_effects_lem es h =
      let nodes = (graph_of es).nodes in
      let back = graph_of-Backward es in
      let (bs, e, runs) =
        rounds_lem nodes back (length nodes + 1) [] tt (λ i m. absurd (not_in_nil i m))
          (omega arith) in
      let plan = Runs-Plan es [] bs runs in
      (
        bs,
        rw
            (
              h,
              has_cycles-false (graph_of es) back,
              e,
              schedule_effects,
              schedule,
              make_batches-graph_of 0 es bs,
            )
            refl,
        plan,
        Plan-validate_batches 0 es [] bs plan,
      )
