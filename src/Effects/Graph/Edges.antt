-- ===== src/Effects/Graph/Edges.antt =====
-- The edges of the graph that `NewGraph` builds.
use punnet_sdk.Base.{
  ℕ, zero, suc, ◌+◌, ◌-◌, ◌≡◌, ◌<◌, refl, Bool, false, ◌||◌, ◌&&◌, List, [], ◌∷◌, arith, length,
  ltb, leb, ◌==◌, if◌then◌else◌, Bool-cases, inl, inr, ap, ◌∙◌,
}
use punnet_sdk.Base.Dict.{lookup, get_or}
use punnet_sdk.Effects.Effect.{Effect, Dependency, dependencies}
use punnet_sdk.Effects.Graph.{
  contains, Node, KeyMaps, make_nodes, build_keys, no_keys, dependencies_at, link, link_dependency,
  link_dependencies, build_dependencies, graph_of,
}
use punnet_sdk.Effects.Graph.Nodes.{has_dependency, link_lem, length-link}
use punnet_sdk.Effects.Graph.Keys.{
  writes_key, reads_key, at_key, dependency_list, dependency_list-suc, next_position,
  build_keys_lem,
}

-- The dependency `d` and the dependencies `es` share a key that one of them writes.
abbrev pub clashes_with : Dependency → List Dependency → Bool
clashes_with d es =
    if d.read_only then writes_key es d.key else (reads_key es d.key || writes_key es d.key)

-- Two lists of dependencies share a key that one of them writes.
unfoldable pub clash : List Dependency → List Dependency → Bool
clash [] es = false
clash (d ∷ ds) es = clashes_with d es || clash ds es

-- The nodes at the key of `d` that the code links to.
abbrev linked : KeyMaps → Dependency → ℕ → Bool
linked m d x =
    if d.read_only
    then at_key m.write_keys d.key x
    else (at_key m.read_keys d.key x || at_key m.write_keys d.key x)

unfoldable any_linked : KeyMaps → List Dependency → ℕ → Bool
any_linked m [] x = false
any_linked m (d ∷ ds) x = linked m d x || any_linked m ds x

module _ {V : Type 0} (m : KeyMaps) where
  length-link_dependency :
      (i : ℕ) (d : Dependency) (nodes : List (Node V))
      → length (link_dependency m i d nodes) ≡ length nodes
  unfolding link_dependency
  length-link_dependency i d nodes = elim (Bool-cases d.read_only) [
    | inl reads ↦ rw (reads, length-link)
    | inr writes ↦ rw (writes, length-link, length-link)
  ]

  link_dependency_lem :
      (i : ℕ) (d : Dependency) (nodes : List (Node V)) (j x : ℕ)
      → has_dependency (link_dependency m i d nodes) j x ≡ (
          has_dependency nodes j x
          || ((i == j) && (linked m d x && (ltb x i && ltb j (length nodes)))))
  unfolding link_dependency
  link_dependency_lem i d nodes j x =
      let writers = get_or [] (lookup d.key m.write_keys) in
      let readers = get_or [] (lookup d.key m.read_keys) in
      elim (Bool-cases d.read_only) [
        | inl reads ↦ rw reads (link_lem i writers nodes j x)
        | inr writes ↦ rw writes (
            ground (
              arith,
              link_lem i writers (link i readers nodes) j x,
              link_lem i readers nodes j x,
              length-link i readers nodes,
            ))
      ]

  length-link_dependencies :
      (i : ℕ) (ds : List Dependency) (nodes : List (Node V))
      → length (link_dependencies m i ds nodes) ≡ length nodes
  unfolding link_dependencies
  length-link_dependencies i [] nodes = refl
  length-link_dependencies i (d ∷ ds) nodes =
      length-link_dependencies i ds (link_dependency m i d nodes) ∙ length-link_dependency i d nodes

  link_dependencies_lem :
      (i : ℕ) (ds : List Dependency) (nodes : List (Node V)) (j x : ℕ)
      → has_dependency (link_dependencies m i ds nodes) j x ≡ (
          has_dependency nodes j x
          || ((i == j) && (any_linked m ds x && (ltb x i && ltb j (length nodes)))))
  unfolding link_dependencies any_linked
  link_dependencies_lem i [] nodes j x = ground arith
  link_dependencies_lem i (d ∷ ds) nodes j x =
      rw
        (
          link_dependencies_lem i ds (link_dependency m i d nodes) j x,
          link_dependency_lem i d nodes j x,
          length-link_dependency i d nodes,
        )
        (regroup (has_dependency nodes j x) (i == j) (linked m d x) (any_linked m ds x)
          (ltb x i && ltb j (length nodes)))
    where
      regroup :
          (a b c d e : Bool)
          → ((a || (b && (c && e))) || (b && (d && e))) ≡ (a || (b && ((c || d) && e)))
      regroup a b c d e = ground arith

  length-build_dependencies :
      (i : ℕ) (todo nodes : List (Node V))
      → length (build_dependencies m i todo nodes) ≡ length nodes
  unfolding build_dependencies
  length-build_dependencies i [] nodes = refl
  length-build_dependencies i (n ∷ todo) nodes =
      length-build_dependencies (i + 1) todo (link_dependencies m i (dependencies n.effect) nodes)
      ∙ length-link_dependencies i (dependencies n.effect) nodes

  build_dependencies_lem :
      (i : ℕ) (es : List (Effect V)) (nodes : List (Node V)) (j x : ℕ)
      → has_dependency (build_dependencies m i (make_nodes i es) nodes) j x ≡ (
          has_dependency nodes j x
          || (leb i j
              && (any_linked m (dependency_list es (j - i)) x
                  && (ltb x j && ltb j (length nodes)))))
  unfolding build_dependencies make_nodes
  build_dependencies_lem i [] nodes j x = unfold dependency_list any_linked in ground arith
  build_dependencies_lem i (e ∷ es) nodes j x =
      let nodes' = link_dependencies m i (dependencies e) nodes in
      rw
        (
          build_dependencies_lem (i + 1) es nodes' j x,
          link_dependencies_lem i (dependencies e) nodes j x,
          length-link_dependencies i (dependencies e) nodes,
          dependency_list-suc e es (j - i),
          next_position es i j,
        )
        (ground arith)

any_linked-clash :
    {V : Type 0} (es : List (Effect V)) (ds : List Dependency) (x : ℕ)
    → any_linked (build_keys 0 (make_nodes 0 es) no_keys) ds x ≡ clash ds (dependency_list es x)
unfolding any_linked clash
any_linked-clash es [] x = refl
any_linked-clash es (d ∷ ds) x =
    let (writes, reads) = build_keys_lem es d.key x in rw (writes, reads, any_linked-clash es ds x)

module _ {V : Type 0} where
  pub length-make_nodes : (i : ℕ) (es : List (Effect V)) → length (make_nodes i es) ≡ length es
  unfolding make_nodes
  length-make_nodes i [] = refl
  length-make_nodes i (e ∷ es) = ap suc (length-make_nodes (i + 1) es)

  make_nodes-none :
      (i : ℕ) (es : List (Effect V)) (j x : ℕ) → has_dependency (make_nodes i es) j x ≡ false
  unfolding make_nodes dependencies_at contains
  make_nodes-none i [] j x = refl
  make_nodes-none i (e ∷ es) zero x = refl
  make_nodes-none i (e ∷ es) (suc j) x = make_nodes-none (i + 1) es j x

  pub length-graph_of : (es : List (Effect V)) → length (graph_of es).nodes ≡ length es
  unfolding graph_of
  length-graph_of es =
      length-build_dependencies (build_keys 0 (make_nodes 0 es) no_keys) 0 (make_nodes 0 es)
        (make_nodes 0 es)
      ∙ length-make_nodes 0 es

  -- The graph has an edge from the effect at `j` to the one at `x` exactly when `x` stands earlier in
  -- the list and the two effects share a key that at least one of them writes.
  pub graph_of_lem :
      (es : List (Effect V)) (j x : ℕ)
      → j < length es
      → has_dependency (graph_of es).nodes j x
        ≡ (ltb x j && clash (dependency_list es j) (dependency_list es x))
  unfolding graph_of
  graph_of_lem es j x h =
      let z : dependency_list es (j - 0) ≡ dependency_list es j =
        ap (dependency_list es) (omega arith) in
      rw
        (
          build_dependencies_lem (build_keys 0 (make_nodes 0 es) no_keys) 0 es (make_nodes 0 es) j
              x,
          make_nodes-none 0 es j x,
          z,
          length-make_nodes 0 es,
          any_linked-clash es (dependency_list es j) x,
        )
        (ground arith)
