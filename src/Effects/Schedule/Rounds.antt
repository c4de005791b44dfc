-- ===== src/Effects/Schedule/Rounds.antt =====
-- The rounds of `Schedule` on a graph whose edges lead to earlier nodes.
use punnet_sdk.Base.{
  ℕ, zero, suc, ◌+◌, ◌≤◌, ◌<◌, ◌≡◌, ◌≢◌, refl, true, false, List, [], ◌∷◌, ◌++◌, some, arith,
  length, length-append, ltb, ◌==◌, Bool-cases, inl, inr, ok,
}
use punnet_sdk.Effects.Graph.{Node, contains, dependencies_at}
use punnet_sdk.Effects.Graph.Nodes.{has_dependency, contains-append}
use punnet_sdk.Effects.Schedule.{find_ready, rounds}
use punnet_sdk.Effects.Schedule.Acyclic.{Backward}
use punnet_sdk.Effects.Schedule.Ready.{
  Unique, find_ready_lem, find_ready-Unique, find_ready_progress, length_of_bounded,
  all_scheduled_sound,
}

Unique-append :
    (xs ys : List ℕ)
    → Unique xs
    → Unique ys
    → ((i : ℕ) → contains ys i ≡ true → contains xs i ≡ false)
    → Unique (xs ++ ys)
unfolding contains
Unique-append [] ys u v h = v
Unique-append (x ∷ xs) ys u v h = (
  elim (Bool-cases (contains ys x)) [
    | inl m ↦ ground (arith, h x m)
    | inr n ↦ ground (arith, contains-append xs ys x)
  ],
  Unique-append xs ys u.1 v (λ i m. ground (arith, h i m)),
)

nonempty_pos : (xs : List ℕ) → xs ≢ [] → 0 < length xs
nonempty_pos [] h = absurd (h refl)
nonempty_pos (x ∷ xs) h = omega arith

module _ {V : Type 0} (nodes : List (Node V)) where
  -- `batches` are what runs after the positions of `s` have run: each batch has positions that have
  -- not run, each once, whose dependencies all have; in the end every position has run.
  abbrev pub Runs : List ℕ → List (List ℕ) → Type 0
  Runs s [] = (i : ℕ) → i < length nodes → contains s i ≡ true
  Runs s (b ∷ bs) =
      Unique b
      × ((i : ℕ)
          → contains b i ≡ true
          → (i < length nodes)
            × (contains s i ≡ false)
            × ((d : ℕ) → has_dependency nodes i d ≡ true → contains s d ≡ true))
      × Runs (s ++ b) bs

  ready_position :
      (s : List ℕ) (i : ℕ)
      → contains (find_ready s 0 nodes) i ≡ true
      → (i < length nodes)
        × (contains s i ≡ false)
        × ((d : ℕ) → has_dependency nodes i d ≡ true → contains s d ≡ true)
  ready_position s i m =
      let e = find_ready_lem s nodes i in
      (
        ground arith,
        ground arith,
        λ d edge. all_scheduled_sound s (dependencies_at nodes i) d (ground arith) edge,
      )

  rounds_step :
      (fuel : ℕ) (s : List ℕ) (bs : List (List ℕ))
      → length s < length nodes
      → find_ready s 0 nodes ≢ []
      → rounds fuel nodes (s ++ find_ready s 0 nodes) ≡ some (ok bs)
      → rounds (suc fuel) nodes s ≡ some (ok (find_ready s 0 nodes ∷ bs))
  unfolding rounds
  rounds_step fuel s bs short some_ready e = ground (arith, e)

  -- A list of as many positions as the graph has holds them all.
  all_run :
      (s : List ℕ)
      → Unique s
      → ((i : ℕ) → contains s i ≡ true → i < length nodes)
      → length nodes ≤ length s
      → Runs s []
  unfolding contains
  all_run s u h full i lt = elim (Bool-cases (contains s i)) [
    | inl here ↦ here
    | inr gone ↦
        let bound =
          length_of_bounded (length nodes) (i ∷ s) (gone, u)
            (λ j m. elim (Bool-cases (i == j)) [
              | inl e ↦ ground arith
              | inr ne ↦ h j (ground arith)
            ]) in
        absurd (omega (arith, bound))
  ]

  module _ (backward : Backward nodes) where
    -- With more fuel than positions that have not run, the rounds schedule every position.
    pub rounds_lem :
        (fuel : ℕ) (s : List ℕ)
        → Unique s
        → ((i : ℕ) → contains s i ≡ true → i < length nodes)
        → length nodes < fuel + length s
        → (bs : List (List ℕ)) × (rounds fuel nodes s ≡ some (ok bs)) × Runs s bs
    rounds_lem zero s u h enough = absurd (omega (arith, length_of_bounded (length nodes) s u h))
    rounds_lem (suc fuel) s u h enough = elim (Bool-cases (ltb (length s) (length nodes))) [
      | inr done ↦ ([], unfold rounds in rw done, all_run s u h (ground arith))
      | inl more ↦
          let short : length s < length nodes = ground arith in
          let b = find_ready s 0 nodes in
          let progress = find_ready_progress nodes backward s short in
          let (bs, e, runs) =
            rounds_lem fuel (s ++ b)
              (Unique-append s b u (find_ready-Unique s 0 nodes) (λ i m. (ready_position s i m).1))
              (λ i m. elim (Bool-cases (contains s i)) [
                | inl old ↦ h i old
                | inr new ↦ (ready_position s i (ground (arith, contains-append s b i))).0
              ])
              (omega (arith, length-append s b, nonempty_pos b progress)) in
          (
            b ∷ bs,
            rounds_step fuel s bs short progress e,
            (find_ready-Unique s 0 nodes, ready_position s, runs),
          )
    ]
