-- ===== src/Effects/Graph/Nodes.antt =====
-- The nodes under the steps that add an edge.
use punnet_sdk.Base.{
  ℕ, zero, suc, ◌≡◌, ◌≤◌, ◌<◌, refl, Bool, true, ◌||◌, ◌&&◌, List, [], ◌∷◌, ◌++◌, Option, none,
  some, arith, length, get_elem?, ltb, ◌==◌, if◌then◌else◌, Bool-cases, inl, inr, ap, ◌∙◌,
  Option-cases,
}
use punnet_sdk.Effects.Effect.{Effect}
use punnet_sdk.Effects.Graph.{contains, Node, modify_at, dependencies_at, add_dependency, link}

pub contains-append :
    (xs ys : List ℕ) (i : ℕ) → contains (xs ++ ys) i ≡ (contains xs i || contains ys i)
unfolding contains
contains-append [] ys i = refl
contains-append (x ∷ xs) ys i = ground (arith, contains-append xs ys i)

module _ {ℓ} {A : Type ℓ} where
  pub length-modify_at : (k : ℕ) (f : A → A) (xs : List A) → length (modify_at k f xs) ≡ length xs
  unfolding modify_at
  length-modify_at k f [] = refl
  length-modify_at zero f (x ∷ xs) = refl
  length-modify_at (suc k) f (x ∷ xs) = ap suc (length-modify_at k f xs)

  abbrev map_some : (A → A) → Option A → Option A
  map_some f none = none
  map_some f (some x) = some (f x)

  pub get_elem?-modify_at :
      (k j : ℕ) (f : A → A) (xs : List A)
      → get_elem? (modify_at k f xs) j
        ≡ (if k == j then map_some f (get_elem? xs j) else get_elem? xs j)
  unfolding modify_at
  get_elem?-modify_at k j f [] = ground arith
  get_elem?-modify_at zero zero f (x ∷ xs) = refl
  get_elem?-modify_at zero (suc j) f (x ∷ xs) = ground arith
  get_elem?-modify_at (suc k) zero f (x ∷ xs) = ground arith
  get_elem?-modify_at (suc k) (suc j) f (x ∷ xs) = ground (arith, get_elem?-modify_at k j f xs)

  pub get_elem?-none : (xs : List A) (j : ℕ) → get_elem? xs j ≡ none → length xs ≤ j
  get_elem?-none [] j h = omega arith
  get_elem?-none (x ∷ xs) zero h = cc
  get_elem?-none (x ∷ xs) (suc j) h = omega (arith, get_elem?-none xs j h)

  pub get_elem?-some : (xs : List A) (j : ℕ) (x : A) → get_elem? xs j ≡ some x → j < length xs
  get_elem?-some [] j x h = cc
  get_elem?-some (y ∷ xs) zero x h = omega arith
  get_elem?-some (y ∷ xs) (suc j) x h = omega (arith, get_elem?-some xs j x h)

module _ {V : Type 0} where
  -- There is an edge from `j` to `d`.
  abbrev pub has_dependency : List (Node V) → ℕ → ℕ → Bool
  has_dependency nodes j d = contains (dependencies_at nodes j) d

  unfoldable pub effect_at : List (Node V) → ℕ → Option (Effect V)
  effect_at nodes j = elim (get_elem? nodes j) [ none ↦ none | some n ↦ some n.effect ]

  dependencies-modify_dependents :
      (nodes : List (Node V)) (k j : ℕ) (g : List ℕ → List ℕ)
      → dependencies_at (modify_at k (λ n. record n { dependents_of = g n.dependents_of }) nodes) j
        ≡ dependencies_at nodes j
  unfolding dependencies_at
  dependencies-modify_dependents nodes k j g = ground (
    arith,
    get_elem?-modify_at k j (λ (n : Node V). record n { dependents_of = g n.dependents_of }) nodes,
  )

  dependencies-modify_dependencies :
      (nodes : List (Node V)) (k j c d : ℕ)
      → has_dependency
          (modify_at k (λ n. record n { dependencies_of = n.dependencies_of ++ c ∷ [] }) nodes)
          j
          d
        ≡ (has_dependency nodes j d || ((k == j) && ((c == d) && ltb j (length nodes))))
  unfolding dependencies_at contains
  dependencies-modify_dependencies nodes k j c d = elim (Option-cases (get_elem? nodes j)) [
    | inl e ↦ ground (
      arith,
      get_elem?-modify_at k j
          (λ (n : Node V). record n { dependencies_of = n.dependencies_of ++ c ∷ [] }) nodes,
      get_elem?-none nodes j,
    )
    | inr (n, e) ↦ ground (
      arith,
      get_elem?-modify_at k j
          (λ (n : Node V). record n { dependencies_of = n.dependencies_of ++ c ∷ [] }) nodes,
      get_elem?-some nodes j n,
      contains-append n.dependencies_of (c ∷ []) d,
    )
  ]

  -- One more edge.
  pub add_dependency_lem :
      (nodes : List (Node V)) (i c j d : ℕ)
      → has_dependency (add_dependency nodes i c) j d
        ≡ (has_dependency nodes j d || ((i == j) && ((c == d) && ltb j (length nodes))))
  unfolding add_dependency
  add_dependency_lem nodes i c j d = elim (Bool-cases (has_dependency nodes i c)) [
    | inl old ↦ ground (arith, old)
    | inr new ↦
        rw (new, dependencies-modify_dependents _ c j (λ ds. ds ++ i ∷ []))
          (dependencies-modify_dependencies nodes i j c d)
  ]

  pub length-add_dependency :
      (nodes : List (Node V)) (i c : ℕ) → length (add_dependency nodes i c) ≡ length nodes
  unfolding add_dependency
  length-add_dependency nodes i c = elim (Bool-cases (has_dependency nodes i c)) [
    | inl old ↦ rw old
    | inr new ↦ rw (new, length-modify_at, length-modify_at)
  ]

  -- The edges of a loop over candidates: the earlier ones.
  pub link_lem :
      (i : ℕ) (cs : List ℕ) (nodes : List (Node V)) (j d : ℕ)
      → has_dependency (link i cs nodes) j d ≡ (
          has_dependency nodes j d
          || ((i == j) && (contains cs d && (ltb d i && ltb j (length nodes)))))
  unfolding link contains
  link_lem i [] nodes j d = ground arith
  link_lem i (c ∷ cs) nodes j d = elim (Bool-cases (ltb c i)) [
    | inl earlier ↦ rw earlier (
        ground (
          arith,
          link_lem i cs (add_dependency nodes i c) j d,
          add_dependency_lem nodes i c j d,
          length-add_dependency nodes i c,
        ))
    | inr later ↦ rw later (ground (arith, link_lem i cs nodes j d))
  ]

  pub length-link :
      (i : ℕ) (cs : List ℕ) (nodes : List (Node V)) → length (link i cs nodes) ≡ length nodes
  unfolding link
  length-link i [] nodes = refl
  length-link i (c ∷ cs) nodes = elim (Bool-cases (ltb c i)) [
    | inl earlier ↦
        rw earlier (length-link i cs (add_dependency nodes i c) ∙ length-add_dependency nodes i c)
    | inr later ↦ rw later (length-link i cs nodes)
  ]

  pub has_dependency-lt :
      (nodes : List (Node V)) (j d : ℕ) → has_dependency nodes j d ≡ true → j < length nodes
  unfolding dependencies_at contains
  has_dependency-lt nodes j d h = elim (Option-cases (get_elem? nodes j)) [
    | inl e ↦ ground (arith, e)
    | inr (n, e) ↦ get_elem?-some nodes j n e
  ]
