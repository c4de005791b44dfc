-- ===== src/Effects/Schedule/Carried.antt =====
-- The effects of the nodes of the graph, from `NewGraph` to the batches of `Schedule`.
use punnet_sdk.Base.{
  ℕ, zero, suc, ◌+◌, ◌≡◌, refl, ◌∙◌, List, [], ◌∷◌, Option, none, some, arith, get_elem?, ltb,
  Bool-cases, inl, inr,
}
use punnet_sdk.Base.Dict.{get_or, lookup}
use punnet_sdk.Effects.Effect.{Effect, Dependency, dependencies}
use punnet_sdk.Effects.Graph.{
  Node, contains, graph_of, make_nodes, modify_at, add_dependency, dependencies_at, link,
  link_dependency, link_dependencies, build_dependencies, build_keys, KeyMaps, no_keys,
}
use punnet_sdk.Effects.Graph.Nodes.{effect_at}
use punnet_sdk.Effects.Schedule.{Batch, effects_of, make_batches}

module _ {V : Type 0} where
  abbrev node_effect : Option (Node V) → Option (Effect V)
  node_effect none = none
  node_effect (some n) = some n.effect

  node_effect-at :
      (nodes : List (Node V)) (j : ℕ) (o : Option (Node V))
      → get_elem? nodes j ≡ o
      → effect_at nodes j ≡ node_effect o
  unfolding effect_at
  node_effect-at nodes j none h = rw (h, effect_at) refl
  node_effect-at nodes j (some n) h = rw (h, effect_at) refl

  effect_at-modify_at :
      (k j : ℕ) (f : Node V → Node V) (nodes : List (Node V))
      → ((n : Node V) → (f n).effect ≡ n.effect)
      → effect_at (modify_at k f nodes) j ≡ effect_at nodes j
  unfolding effect_at modify_at
  effect_at-modify_at k j f [] h = refl
  effect_at-modify_at zero zero f (n ∷ ns) h = ground (arith, h n)
  effect_at-modify_at zero (suc j) f (n ∷ ns) h = refl
  effect_at-modify_at (suc k) zero f (n ∷ ns) h = refl
  effect_at-modify_at (suc k) (suc j) f (n ∷ ns) h = effect_at-modify_at k j f ns h

  effect_at-add_dependency :
      (nodes : List (Node V)) (i c j : ℕ)
      → effect_at (add_dependency nodes i c) j ≡ effect_at nodes j
  unfolding add_dependency
  effect_at-add_dependency nodes i c j = elim (Bool-cases (contains (dependencies_at nodes i) c)) [
    | inl t ↦ rw (t) refl
    | inr t ↦
        rw (t)
          (effect_at-modify_at c j _ _ (λ n. refl) ∙ effect_at-modify_at i j _ nodes (λ n. refl))
  ]

  effect_at-link :
      (i : ℕ) (cs : List ℕ) (nodes : List (Node V)) (j : ℕ)
      → effect_at (link i cs nodes) j ≡ effect_at nodes j
  unfolding link
  effect_at-link i [] nodes j = refl
  effect_at-link i (c ∷ cs) nodes j = elim (Bool-cases (ltb c i)) [
    | inl t ↦
        rw (t)
          (effect_at-link i cs (add_dependency nodes i c) j ∙ effect_at-add_dependency nodes i c j)
    | inr t ↦ rw (t) (effect_at-link i cs nodes j)
  ]

  effect_at-link_dependency :
      (m : KeyMaps) (i : ℕ) (d : Dependency) (nodes : List (Node V)) (j : ℕ)
      → effect_at (link_dependency m i d nodes) j ≡ effect_at nodes j
  unfolding link_dependency
  effect_at-link_dependency m i d nodes j =
      let writers = get_or [] (lookup d.key m.write_keys) in
      let readers = get_or [] (lookup d.key m.read_keys) in
      elim (Bool-cases d.read_only) [
        | inl t ↦ rw (t) (effect_at-link i writers nodes j)
        | inr t ↦ rw (t) (effect_at-link i writers _ j ∙ effect_at-link i readers nodes j)
      ]

  effect_at-link_dependencies :
      (m : KeyMaps) (i : ℕ) (ds : List Dependency) (nodes : List (Node V)) (j : ℕ)
      → effect_at (link_dependencies m i ds nodes) j ≡ effect_at nodes j
  unfolding link_dependencies
  effect_at-link_dependencies m i [] nodes j = refl
  effect_at-link_dependencies m i (d ∷ ds) nodes j =
      effect_at-link_dependencies m i ds (link_dependency m i d nodes) j
      ∙ effect_at-link_dependency m i d nodes j

  effect_at-build_dependencies :
      (m : KeyMaps) (i : ℕ) (todo nodes : List (Node V)) (j : ℕ)
      → effect_at (build_dependencies m i todo nodes) j ≡ effect_at nodes j
  unfolding build_dependencies
  effect_at-build_dependencies m i [] nodes j = refl
  effect_at-build_dependencies m i (n ∷ todo) nodes j =
      effect_at-build_dependencies m (i + 1) todo _ j
      ∙ effect_at-link_dependencies m i (dependencies n.effect) nodes j

  effect_at-make_nodes :
      (i : ℕ) (es : List (Effect V)) (j : ℕ) → effect_at (make_nodes i es) j ≡ get_elem? es j
  unfolding make_nodes effect_at
  effect_at-make_nodes i [] j = refl
  effect_at-make_nodes i (e ∷ es) zero = refl
  effect_at-make_nodes i (e ∷ es) (suc j) = effect_at-make_nodes (i + 1) es j

  effect_at-graph_of :
      (es : List (Effect V)) (j : ℕ) → effect_at (graph_of es).nodes j ≡ get_elem? es j
  unfolding graph_of
  effect_at-graph_of es j =
      effect_at-build_dependencies (build_keys 0 (make_nodes 0 es) no_keys) 0 (make_nodes 0 es)
        (make_nodes 0 es) j
      ∙ effect_at-make_nodes 0 es j

  at_position :
      (es : List (Effect V)) (j : ℕ) (o : Option (Node V))
      → get_elem? (graph_of es).nodes j ≡ o
      → get_elem? es j ≡ node_effect o
  unfolding effect_at
  at_position es j o h = cc (effect_at-graph_of es j, node_effect-at (graph_of es).nodes j o h)

  -- The effects at the positions of a batch, and batches of positions as batches of effects.
  abbrev pub pick : List (Effect V) → List ℕ → List (Effect V)
  pick es [] = []
  pick es (i ∷ is) = elim (get_elem? es i) [ none ↦ pick es is | some e ↦ e ∷ pick es is ]

  abbrev pub batches_of : ℕ → List (Effect V) → List (List ℕ) → List (Batch V)
  batches_of level es [] = []
  batches_of level es (b ∷ bs) =
      record { effects = pick es b; level = level } ∷ batches_of (level + 1) es bs

  effects_of-graph_of :
      (es : List (Effect V)) (is : List ℕ) → effects_of (graph_of es).nodes is ≡ pick es is
  unfolding effects_of effect_at
  effects_of-graph_of es [] = refl
  effects_of-graph_of es (i ∷ is) =
      go (get_elem? (graph_of es).nodes i) refl (effects_of-graph_of es is)
    where
      go :
          (o : Option (Node V))
          → get_elem? (graph_of es).nodes i ≡ o
          → effects_of (graph_of es).nodes is ≡ pick es is
          → effects_of (graph_of es).nodes (i ∷ is) ≡ pick es (i ∷ is)
      go none e f = rw (e, at_position es i none e, effects_of, pick) f
      go (some n) e f = rw (e, at_position es i (some n) e, effects_of, pick, f) refl

  pub make_batches-graph_of :
      (level : ℕ) (es : List (Effect V)) (bs : List (List ℕ))
      → make_batches level (graph_of es).nodes bs ≡ batches_of level es bs
  unfolding make_batches
  make_batches-graph_of level es [] = refl
  make_batches-graph_of level es (b ∷ bs) =
      rw (effects_of-graph_of es b, make_batches-graph_of (level + 1) es bs) refl
