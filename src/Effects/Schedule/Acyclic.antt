-- ===== src/Effects/Schedule/Acyclic.antt =====
-- `HasCycles` of effects/graph.go on a graph whose edges all lead to earlier nodes.
use punnet_sdk.Base.{
  ℕ, zero, suc, ◌+◌, ◌≤◌, ◌<◌, ◌≡◌, refl, Bool, true, false, List, [], ◌∷◌, Option, some, arith,
  length, All, Bool-cases, inl, inr,
}
use punnet_sdk.Effects.Graph.{Node, Graph, contains, dependencies_at}
use punnet_sdk.Effects.Graph.Nodes.{has_dependency}
use punnet_sdk.Effects.Schedule.{
  Marks, unmark, search_all, has_cycle_util, has_cycles_from, has_cycles,
}

-- Every element is above `i`.
abbrev pub Beyond : ℕ → List ℕ → Type 0
Beyond i = All (λ x. i < x)

Beyond-lower : (i j : ℕ) (xs : List ℕ) → i ≤ j → Beyond j xs → Beyond i xs
Beyond-lower i j [] h b = tt
Beyond-lower i j (x ∷ xs) h b = (omega arith, Beyond-lower i j xs h b.1)

Beyond-contains : (i : ℕ) (xs : List ℕ) → Beyond i xs → contains xs i ≡ false
unfolding contains
Beyond-contains i [] b = refl
Beyond-contains i (x ∷ xs) b = ground (arith, Beyond-contains i xs b.1)

Beyond-unmark : (i : ℕ) (xs : List ℕ) → Beyond i xs → unmark i xs ≡ xs
unfolding unmark
Beyond-unmark i [] b = refl
Beyond-unmark i (x ∷ xs) b = ground (arith, Beyond-unmark i xs b.1)

All-contains : {P : ℕ → Type 0} (ds : List ℕ) → ((d : ℕ) → contains ds d ≡ true → P d) → All P ds
unfolding contains
All-contains [] h = tt
All-contains (d ∷ ds) h = (h d (ground arith), All-contains ds (λ e m. h e (ground arith)))

module _ {V : Type 0} (nodes : List (Node V)) where
  -- Every edge leads to an earlier node.
  abbrev pub Backward : Type 0
  Backward = (j d : ℕ) → has_dependency nodes j d ≡ true → d < j

  module _ (backward : Backward) where
    -- The call finds no cycle and leaves the stack as it was.
    abbrev Clean : List ℕ → Option (Bool × Marks) → Type 0
    Clean stack r = (visited : List ℕ) × (r ≡ some (false, (visited, stack)))

    search_all-Clean :
        (visit : ℕ → Marks → Option (Bool × Marks)) (ds visited stack : List ℕ)
        → All (λ d. (v : List ℕ) → Clean stack (visit d (v, stack))) ds
        → Clean stack (search_all visit ds (visited, stack))
    unfolding search_all
    search_all-Clean visit [] visited stack h = (visited, refl)
    search_all-Clean visit (d ∷ ds) visited stack h =
        let (v, e) = h.0 visited in rw (e, search_all) (search_all-Clean visit ds v stack h.1)

    has_cycle_util-Clean :
        (fuel i : ℕ) (visited stack : List ℕ)
        → i < fuel
        → Beyond i stack
        → Clean stack (has_cycle_util fuel nodes i (visited, stack))
    unfolding has_cycle_util
    has_cycle_util-Clean zero i visited stack h b = absurd (omega arith)
    has_cycle_util-Clean (suc fuel) i visited stack h b = elim (Bool-cases (contains visited i)) [
      | inl old ↦ (visited, rw (Beyond-contains i stack b, old))
      | inr new ↦
          let (v, e) =
            search_all-Clean (has_cycle_util fuel nodes) (dependencies_at nodes i) (i ∷ visited)
              (i ∷ stack)
              (All-contains (dependencies_at nodes i) (λ d edge v.
                has_cycle_util-Clean fuel d v (i ∷ stack) (omega (arith, backward i d edge)) (
                  backward i d edge,
                  Beyond-lower d i stack (omega (arith, backward i d edge)) b,
                ))) in
          (v, rw (Beyond-contains i stack b, new, e) (ground (arith, Beyond-unmark i stack b)))
    ]

    has_cycles_from-false :
        (fuel i : ℕ) (ns : List (Node V)) (visited : List ℕ)
        → i + length ns ≤ fuel
        → has_cycles_from fuel nodes i ns (visited, []) ≡ some false
    unfolding has_cycles_from
    has_cycles_from-false fuel i [] visited h = refl
    has_cycles_from-false fuel i (n ∷ ns) visited h =
        let (v, e) = has_cycle_util-Clean fuel i visited [] (omega arith) tt in
        rw (e, has_cycles_from) (has_cycles_from-false fuel (i + 1) ns v (omega arith))

-- The search ends, and finds no cycle where every edge leads to an earlier node.
pub has_cycles-false : {V : Type 0} (g : Graph V) → Backward g.nodes → has_cycles g ≡ some false
unfolding has_cycles
has_cycles-false g backward =
    has_cycles_from-false g.nodes backward (length g.nodes) 0 g.nodes [] (omega arith)
