-- ===== src/Effects/Graph.antt =====
-- effects/graph.go: the dependency graph. The nodes are changed in place while the edges are added,
-- so the list of nodes is passed on.
pub mod Nodes
pub mod Keys
pub mod Edges
use punnet_sdk.Base.{
  ℕ, zero, suc, ◌+◌, Bool, true, false, List, [], ◌∷◌, ◌++◌, Option, none, some, length, get_elem?,
  ltb, ◌==◌, ◌||◌, if◌then◌else◌, Outcome, ok, ◌>>=◌, ◌>>◌,
}
use punnet_sdk.Base.Bytes.{Bytes}
use punnet_sdk.Base.Dict.{Dict, lookup, insert, get_or}
use punnet_sdk.Effects.Effect.{Effect, Dependency, dependencies, effect_key, validate_effects}

-- `scheduled[i]` and the test for a repeated dependency: `i` is in the list.
unfoldable pub contains : List ℕ → ℕ → Bool
contains [] i = false
contains (x ∷ xs) i = (x == i) || contains xs i

pub record Node (V : Type 0) : Type 0 where
  pub index : ℕ
  pub effect : Effect V
  pub dependencies_of : List ℕ
  pub dependents_of : List ℕ

abbrev pub KeyMap : Type 0
KeyMap = Dict (List ℕ)

-- `keyToNodes`, `readKeys` and `writeKeys`
pub record KeyMaps : Type 0 where
  pub key_to_nodes : KeyMap
  pub read_keys : KeyMap
  pub write_keys : KeyMap

pub record Graph (V : Type 0) : Type 0 where
  pub nodes : List (Node V)
  pub keys : KeyMaps

abbrev pub no_keys : KeyMaps
no_keys = record { key_to_nodes = []; read_keys = []; write_keys = [] }

-- `m[k] = append(m[k], i)`
unfoldable pub append_key : Bytes → ℕ → KeyMap → KeyMap
append_key k i m = insert k (get_or [] (lookup k m) ++ i ∷ []) m

-- The loop over the dependencies of one node in `NewGraph`.
unfoldable pub track : ℕ → List Dependency → KeyMaps → KeyMaps
unfolding append_key
track i [] m = m
track i (d ∷ ds) m = track i ds (
    if d.read_only
    then record m { read_keys = append_key d.key i m.read_keys }
    else record m { write_keys = append_key d.key i m.write_keys })

-- The element `i` of the slice is changed; an index out of range does not occur.
unfoldable pub modify_at {ℓ} : {A : Type ℓ} → ℕ → (A → A) → List A → List A
modify_at i f [] = []
modify_at zero f (x ∷ xs) = f x ∷ xs
modify_at (suc i) f (x ∷ xs) = x ∷ modify_at i f xs

module _ {V : Type 0} where
  -- The loop of `NewGraph` that creates the nodes.
  unfoldable pub make_nodes : ℕ → List (Effect V) → List (Node V)
  make_nodes i [] = []
  make_nodes i (e ∷ es) =
      record { index = i; effect = e; dependencies_of = []; dependents_of = [] }
      ∷ make_nodes (i + 1) es

  -- The loop of `NewGraph` that builds the key maps.
  unfoldable pub build_keys : ℕ → List (Node V) → KeyMaps → KeyMaps
  unfolding append_key track
  build_keys i [] m = m
  build_keys i (n ∷ ns) m = build_keys (i + 1) ns (
      track i (dependencies n.effect)
        (record m { key_to_nodes = append_key (effect_key n.effect) i m.key_to_nodes }))

  -- `g.Nodes[i].Dependencies`
  unfoldable pub dependencies_at : List (Node V) → ℕ → List ℕ
  dependencies_at nodes i = elim (get_elem? nodes i) [ none ↦ [] | some n ↦ n.dependencies_of ]

  unfoldable pub add_dependency : List (Node V) → ℕ → ℕ → List (Node V)
  unfolding dependencies_at contains modify_at
  add_dependency nodes dependent dependency =
      if contains (dependencies_at nodes dependent) dependency
      then nodes
      else modify_at dependency
          (λ n. record n { dependents_of = n.dependents_of ++ dependent ∷ [] })
          (modify_at dependent
            (λ n. record n { dependencies_of = n.dependencies_of ++ dependency ∷ [] }) nodes)

  -- A loop over the writers or the readers of a key: earlier ones only.
  unfoldable pub link : ℕ → List ℕ → List (Node V) → List (Node V)
  unfolding add_dependency
  link i [] nodes = nodes
  link i (c ∷ cs) nodes = link i cs (if ltb c i then add_dependency nodes i c else nodes)

  unfoldable pub link_dependency : KeyMaps → ℕ → Dependency → List (Node V) → List (Node V)
  unfolding link
  link_dependency m i d nodes =
      let writers = get_or [] (lookup d.key m.write_keys) in
      let readers = get_or [] (lookup d.key m.read_keys) in
      if d.read_only then link i writers nodes else link i writers (link i readers nodes)

  unfoldable pub link_dependencies : KeyMaps → ℕ → List Dependency → List (Node V) → List (Node V)
  unfolding link_dependency
  link_dependencies m i [] nodes = nodes
  link_dependencies m i (d ∷ ds) nodes = link_dependencies m i ds (link_dependency m i d nodes)

  -- `buildDependencies`: `todo` are the nodes from `i` on. Only their effects are read, which no step
  -- changes.
  unfoldable pub build_dependencies : KeyMaps → ℕ → List (Node V) → List (Node V) → List (Node V)
  unfolding link_dependencies
  build_dependencies m i [] nodes = nodes
  build_dependencies m i (n ∷ todo) nodes =
      build_dependencies m (i + 1) todo (link_dependencies m i (dependencies n.effect) nodes)

  -- The graph of effects that are valid.
  unfoldable pub graph_of : List (Effect V) → Graph V
  unfolding make_nodes build_keys build_dependencies
  graph_of effects =
      let nodes = make_nodes 0 effects in
      let keys = build_keys 0 nodes no_keys in
      record { nodes = build_dependencies keys 0 nodes nodes; keys = keys }

  unfoldable pub new_graph : List (Effect V) → Outcome (Graph V)
  unfolding graph_of validate_effects
  new_graph effects = do validate_effects effects; ok (graph_of effects)

  -- `IndependentNodes`
  unfoldable pub independent_nodes : List (Node V) → List (Node V)
  independent_nodes [] = []
  independent_nodes (n ∷ ns) =
      let rest = independent_nodes ns in if length n.dependencies_of == 0 then n ∷ rest else rest
