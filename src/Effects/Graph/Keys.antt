-- ===== src/Effects/Graph/Keys.antt =====
-- The key maps of the graph: which nodes read and which write a key.
use punnet_sdk.Base.{
  ℕ, zero, suc, ◌+◌, ◌-◌, ◌≡◌, refl, Bool, false, ◌||◌, ◌&&◌, not, List, [], ◌∷◌, ◌++◌, arith, leb,
  ◌==◌, if◌then◌else◌, Bool-cases, inl, inr, ap,
}
use punnet_sdk.Base.Bytes.{Bytes, bytes_eq, eq_iff}
use punnet_sdk.Base.Dict.{lookup, get_or, lookup-insert}
use punnet_sdk.Effects.Effect.{Effect, Dependency, dependencies, effect_key}
use punnet_sdk.Effects.Graph.{
  contains, KeyMap, KeyMaps, append_key, track, build_keys, make_nodes, no_keys,
}
use punnet_sdk.Effects.Graph.Nodes.{contains-append}

-- One of the dependencies writes the key `k`; one of them only reads it.
unfoldable pub writes_key : List Dependency → Bytes → Bool
writes_key [] k = false
writes_key (d ∷ ds) k = (not d.read_only && bytes_eq d.key k) || writes_key ds k

unfoldable pub reads_key : List Dependency → Bytes → Bool
reads_key [] k = false
reads_key (d ∷ ds) k = (d.read_only && bytes_eq d.key k) || reads_key ds k

-- The node `x` stands at the key `k` of a map.
abbrev pub at_key : KeyMap → Bytes → ℕ → Bool
at_key m k x = contains (get_or [] (lookup k m)) x

append_key_lem :
    (k : Bytes) (i : ℕ) (m : KeyMap) (j : Bytes) (x : ℕ)
    → at_key (append_key k i m) j x ≡ (at_key m j x || (bytes_eq k j && (i == x)))
unfolding append_key contains
append_key_lem k i m j x = elim (Bool-cases (bytes_eq k j)) [
  | inl e ↦ ground (
    arith,
    lookup-insert k j (get_or [] (lookup k m) ++ i ∷ []) m,
    eq_iff k j,
    contains-append (get_or [] (lookup k m)) (i ∷ []) x,
  )
  | inr e ↦ ground (arith, lookup-insert k j (get_or [] (lookup k m) ++ i ∷ []) m)
]

track_writes :
    (i : ℕ) (ds : List Dependency) (m : KeyMaps) (k : Bytes) (x : ℕ)
    → at_key (track i ds m).write_keys k x
      ≡ (at_key m.write_keys k x || ((i == x) && writes_key ds k))
unfolding track writes_key
track_writes i [] m k x = ground arith
track_writes i (d ∷ ds) m k x = elim (Bool-cases d.read_only) [
  | inl reads ↦ rw reads (
      ground
        (arith, track_writes i ds (record m { read_keys = append_key d.key i m.read_keys }) k x))
  | inr writes ↦ rw writes (
      ground (
        arith,
        track_writes i ds (record m { write_keys = append_key d.key i m.write_keys }) k x,
        append_key_lem d.key i m.write_keys k x,
      ))
]

track_reads :
    (i : ℕ) (ds : List Dependency) (m : KeyMaps) (k : Bytes) (x : ℕ)
    → at_key (track i ds m).read_keys k x ≡ (at_key m.read_keys k x || ((i == x) && reads_key ds k))
unfolding track reads_key
track_reads i [] m k x = ground arith
track_reads i (d ∷ ds) m k x = elim (Bool-cases d.read_only) [
  | inl reads ↦ rw reads (
      ground (
        arith,
        track_reads i ds (record m { read_keys = append_key d.key i m.read_keys }) k x,
        append_key_lem d.key i m.read_keys k x,
      ))
  | inr writes ↦ rw writes (
      ground
        (arith, track_reads i ds (record m { write_keys = append_key d.key i m.write_keys }) k x))
]

module _ {V : Type 0} where
  -- The dependencies of the effect at a position, none where there is no effect.
  unfoldable pub dependency_list : List (Effect V) → ℕ → List Dependency
  dependency_list [] x = []
  dependency_list (e ∷ es) zero = dependencies e
  dependency_list (e ∷ es) (suc x) = dependency_list es x

  pub dependency_list-suc :
      (e : Effect V) (es : List (Effect V)) (x : ℕ)
      → dependency_list (e ∷ es) x ≡ (if x == 0 then dependencies e else dependency_list es (x - 1))
  unfolding dependency_list
  dependency_list-suc e es zero = refl
  dependency_list-suc e es (suc x) = ground arith

  pub next_position :
      (es : List (Effect V)) (i x : ℕ)
      → dependency_list es (x - i - 1) ≡ dependency_list es (x - (i + 1))
  next_position es i x = ap (dependency_list es) (omega arith)

  build_keys_writes :
      (i : ℕ) (es : List (Effect V)) (m : KeyMaps) (k : Bytes) (x : ℕ)
      → at_key (build_keys i (make_nodes i es) m).write_keys k x
        ≡ (at_key m.write_keys k x || (leb i x && writes_key (dependency_list es (x - i)) k))
  unfolding build_keys make_nodes
  build_keys_writes i [] m k x = unfold dependency_list writes_key in ground arith
  build_keys_writes i (e ∷ es) m k x =
      let m' = record m { key_to_nodes = append_key (effect_key e) i m.key_to_nodes } in
      rw
        (
          build_keys_writes (i + 1) es (track i (dependencies e) m') k x,
          track_writes i (dependencies e) m' k x,
          dependency_list-suc e es (x - i),
          next_position es i x,
        )
        (ground arith)

  build_keys_reads :
      (i : ℕ) (es : List (Effect V)) (m : KeyMaps) (k : Bytes) (x : ℕ)
      → at_key (build_keys i (make_nodes i es) m).read_keys k x
        ≡ (at_key m.read_keys k x || (leb i x && reads_key (dependency_list es (x - i)) k))
  unfolding build_keys make_nodes
  build_keys_reads i [] m k x = unfold dependency_list reads_key in ground arith
  build_keys_reads i (e ∷ es) m k x =
      let m' = record m { key_to_nodes = append_key (effect_key e) i m.key_to_nodes } in
      rw
        (
          build_keys_reads (i + 1) es (track i (dependencies e) m') k x,
          track_reads i (dependencies e) m' k x,
          dependency_list-suc e es (x - i),
          next_position es i x,
        )
        (ground arith)

  -- The key maps of the graph hold, for each key, the positions of the effects that write it and of
  -- those that only read it.
  pub build_keys_lem :
      (es : List (Effect V)) (k : Bytes) (x : ℕ)
      → (at_key (build_keys 0 (make_nodes 0 es) no_keys).write_keys k x
          ≡ writes_key (dependency_list es x) k)
        × (at_key (build_keys 0 (make_nodes 0 es) no_keys).read_keys k x
            ≡ reads_key (dependency_list es x) k)
  unfolding lookup contains
  build_keys_lem es k x =
      let z : dependency_list es (x - 0) ≡ dependency_list es x =
        ap (dependency_list es) (omega arith) in
      (
        rw (build_keys_writes 0 es no_keys k x, z) (ground arith),
        rw (build_keys_reads 0 es no_keys k x, z) (ground arith),
      )
