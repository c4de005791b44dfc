-- ===== src/Effects/Schedule/Ready.antt =====
-- The nodes that a round schedules, and how many positions there are below a bound.
use punnet_sdk.Base.{
  ℕ, zero, suc, ◌+◌, ◌-◌, ◌≤◌, ◌<◌, ◌≡◌, ◌≢◌, ◌⊎◌, refl, true, false, ◌&&◌, not, List, [], ◌∷◌,
  arith, length, ltb, leb, ◌==◌, if◌then◌else◌, Bool-cases, inl, inr, ap,
}
use punnet_sdk.Effects.Graph.{Node, contains, dependencies_at}
use punnet_sdk.Effects.Schedule.{all_scheduled, find_ready, unmark}
use punnet_sdk.Effects.Schedule.Acyclic.{Backward}

-- No position stands twice.
abbrev pub Unique : List ℕ → Type 0
Unique [] = Unit
Unique (x ∷ xs) = (contains xs x ≡ false) × Unique xs

pub all_scheduled_sound :
    (s ds : List ℕ) (d : ℕ) → all_scheduled s ds ≡ true → contains ds d ≡ true → contains s d ≡ true
unfolding all_scheduled contains
all_scheduled_sound s [] d h m = cc
all_scheduled_sound s (x ∷ ds) d h m = ground (arith, all_scheduled_sound s ds d)

all_scheduled_complete :
    (s ds : List ℕ)
    → ((d : ℕ) → contains ds d ≡ true → contains s d ≡ true)
    → all_scheduled s ds ≡ true
unfolding all_scheduled contains
all_scheduled_complete s [] h = refl
all_scheduled_complete s (x ∷ ds) h =
    ground (arith, h x, all_scheduled_complete s ds (λ d m. h d (ground arith)))

module _ {V : Type 0} where
  shift_dependencies :
      (n : Node V) (ns : List (Node V)) (k : ℕ)
      → dependencies_at (n ∷ ns) k
        ≡ (if k == 0 then n.dependencies_of else dependencies_at ns (k - 1))
  unfolding dependencies_at
  shift_dependencies n ns zero = refl
  shift_dependencies n ns (suc k) = ground arith

  next_dependencies :
      (ns : List (Node V)) (i x : ℕ)
      → dependencies_at ns (x - i - 1) ≡ dependencies_at ns (x - (i + 1))
  next_dependencies ns i x = ap (dependencies_at ns) (omega arith)

  -- A position is ready if it is one of the graph's, is not scheduled, and all that it depends on is.
  find_ready-from :
      (s : List ℕ) (i : ℕ) (ns : List (Node V)) (x : ℕ)
      → contains (find_ready s i ns) x ≡ (
          leb i x
          && (ltb x (i + length ns)
              && (not (contains s x) && all_scheduled s (dependencies_at ns (x - i)))))
  unfolding find_ready contains
  find_ready-from s i [] x = ground arith
  find_ready-from s i (n ∷ ns) x =
      let rest = find_ready-from s (i + 1) ns x in
      let here = shift_dependencies n ns (x - i) in
      let next = next_dependencies ns i x in
      let same : (i == x) ≡ true → contains s x ≡ contains s i = (λ h. ground arith) in
      elim (Bool-cases (contains s i)) [
        | inl old ↦ rw (old, rest, here, next) (ground (arith, same))
        | inr new ↦ elim (Bool-cases (all_scheduled s n.dependencies_of)) [
          | inl ready ↦ rw (new, ready, rest, here, next) (ground (arith, same))
          | inr waiting ↦ rw (new, waiting, rest, here, next) (ground (arith, same))
        ]
      ]

  -- What `findReadyNodes` returns.
  pub find_ready_lem :
      (s : List ℕ) (nodes : List (Node V)) (x : ℕ)
      → contains (find_ready s 0 nodes) x ≡ (
          ltb x (length nodes) && (not (contains s x) && all_scheduled s (dependencies_at nodes x)))
  find_ready_lem s nodes x =
      let z : dependencies_at nodes (x - 0) ≡ dependencies_at nodes x =
        ap (dependencies_at nodes) (omega arith) in
      let e = find_ready-from s 0 nodes x in ground (arith, e, z)

  pub find_ready-Unique : (s : List ℕ) (i : ℕ) (ns : List (Node V)) → Unique (find_ready s i ns)
  unfolding find_ready
  find_ready-Unique s i [] = tt
  find_ready-Unique s i (n ∷ ns) =
      ground (arith, find_ready-Unique s (i + 1) ns, find_ready-from s (i + 1) ns i)

contains-unmark :
    (n : ℕ) (xs : List ℕ) (x : ℕ) → contains (unmark n xs) x ≡ (not (n == x) && contains xs x)
unfolding contains unmark
contains-unmark n [] x = ground arith
contains-unmark n (y ∷ xs) x = ground (arith, contains-unmark n xs x)

length-unmark-le : (n : ℕ) (xs : List ℕ) → length (unmark n xs) ≤ length xs
unfolding unmark
length-unmark-le n [] = omega arith
length-unmark-le n (y ∷ xs) = ground (arith, length-unmark-le n xs)

length-unmark-lt :
    (n : ℕ) (xs : List ℕ) → contains xs n ≡ true → length (unmark n xs) + 1 ≤ length xs
unfolding unmark contains
length-unmark-lt n [] h = cc
length-unmark-lt n (y ∷ xs) h = ground (arith, length-unmark-lt n xs, length-unmark-le n xs)

unmark_absent : (n : ℕ) (xs : List ℕ) → contains xs n ≡ false → unmark n xs ≡ xs
unfolding unmark contains
unmark_absent n [] h = refl
unmark_absent n (y ∷ xs) h = ground (arith, unmark_absent n xs)

length-unmark-Unique : (n : ℕ) (xs : List ℕ) → Unique xs → length xs ≤ length (unmark n xs) + 1
unfolding unmark
length-unmark-Unique n [] u = omega arith
length-unmark-Unique n (y ∷ xs) u =
    ground (arith, length-unmark-Unique n xs u.1, unmark_absent n xs)

unmark-Unique : (n : ℕ) (xs : List ℕ) → Unique xs → Unique (unmark n xs)
unfolding unmark
unmark-Unique n [] u = tt
unmark-Unique n (y ∷ xs) u = ground (arith, unmark-Unique n xs u.1, contains-unmark n xs y)

-- A list that has every position below `n` is at least that long.
pub length_of_covering :
    (n : ℕ) (s : List ℕ) → ((i : ℕ) → i < n → contains s i ≡ true) → n ≤ length s
length_of_covering zero s h = omega arith
length_of_covering (suc n) s h = omega (
  arith,
  length-unmark-lt n s (h n (omega arith)),
  length_of_covering n (unmark n s)
      (λ i lt. ground (arith, contains-unmark n s i, h i (omega arith))),
)

-- A list that has each of its positions once, all below `n`, is at most that long.
pub length_of_bounded :
    (n : ℕ) (s : List ℕ) → Unique s → ((i : ℕ) → contains s i ≡ true → i < n) → length s ≤ n
unfolding contains
length_of_bounded zero [] u h = omega arith
length_of_bounded zero (x ∷ s) u h = absurd (absurd_lt x (h x (ground arith)))
  where
    absurd_lt : (x : ℕ) → x < 0 → ⊥
    absurd_lt x lt = omega arith
length_of_bounded (suc n) s u h = omega (
  arith,
  length-unmark-Unique n s u,
  length_of_bounded n (unmark n s) (unmark-Unique n s u)
      (λ i m. ground (arith, contains-unmark n s i, h i)),
)

-- Below `k` every position is scheduled, or there is a first one that is not.
pub first_missing :
    (k : ℕ) (s : List ℕ)
    → ((i : ℕ) → i < k → contains s i ≡ true)
      ⊎ ((i : ℕ) × (i < k) × (contains s i ≡ false) × ((j : ℕ) → j < i → contains s j ≡ true))
first_missing zero s = inl (λ i h. absurd (omega arith))
first_missing (suc k) s = elim (first_missing k s) [
  | inr (i, lt, gone, before) ↦ inr (i, omega arith, gone, before)
  | inl all ↦ elim (Bool-cases (contains s k)) [
    | inl here ↦ inl (λ i lt. elim (Bool-cases (i == k)) [
      | inl e ↦ ground (arith, here)
      | inr ne ↦ all i (ground arith)
    ])
    | inr gone ↦ inr (k, omega arith, gone, all)
  ]
]

module _ {V : Type 0} (nodes : List (Node V)) (backward : Backward nodes) where
  -- While a position is not scheduled, the round schedules one.
  pub find_ready_progress : (s : List ℕ) → length s < length nodes → find_ready s 0 nodes ≢ []
  find_ready_progress s short empty = elim (first_missing (length nodes) s) [
    | inl all ↦ omega (arith, length_of_covering (length nodes) s all)
    | inr (i, lt, gone, before) ↦
        let deps =
          all_scheduled_complete s (dependencies_at nodes i)
            (λ d edge. before d (backward i d edge)) in
        let here : contains (find_ready s 0 nodes) i ≡ true =
          ground (arith, find_ready_lem s nodes i, deps) in
        let there : contains [] i ≡ true = rw empty at here in not_in_nil i there
  ]
    where
      not_in_nil : (i : ℕ) → contains [] i ≡ true → ⊥
      not_in_nil i h = unfold contains in cc
