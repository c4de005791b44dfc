-- ===== src/Effects/Schedule/Conflicts.antt =====
-- `DetectConflict` and the dependencies of effects, and `ValidateBatches` on one batch.
use punnet_sdk.Base.{
  ℕ, zero, suc, ◌≡◌, ◌≢◌, refl, true, false, ◌||◌, List, [], ◌∷◌, Option, none, some, arith,
  get_elem?, ok,
}
use punnet_sdk.Base.Bytes.{Bytes, eq_iff, eq_refl}
use punnet_sdk.Effects.Effect.{
  Effect, Dependency, reads, writes, transfers, emits, deletes, dependencies, effect_key, full_key,
  effect_type, is_write, is_read, detect_conflict,
}
use punnet_sdk.Effects.Graph.{contains}
use punnet_sdk.Effects.Graph.Keys.{writes_key, reads_key, dependency_list}
use punnet_sdk.Effects.Graph.Edges.{clash}
use punnet_sdk.Effects.Schedule.{check_against, validate_batch}
use punnet_sdk.Effects.Schedule.Ready.{Unique}
use punnet_sdk.Effects.Schedule.Carried.{pick}

writes-clash :
    (ds es : List Dependency) (k : Bytes)
    → writes_key ds k ≡ true
    → (reads_key es k || writes_key es k) ≡ true
    → clash ds es ≡ true
unfolding writes_key clash
writes-clash [] es k h g = cc
writes-clash (d ∷ ds) es k h g = ground (arith, eq_iff d.key k, writes-clash ds es k)

reads-clash :
    (ds es : List Dependency) (k : Bytes)
    → reads_key ds k ≡ true
    → writes_key es k ≡ true
    → clash ds es ≡ true
unfolding reads_key clash
reads-clash [] es k h g = cc
reads-clash (d ∷ ds) es k h g = ground (arith, eq_iff d.key k, reads-clash ds es k)

module _ {V : Type 0} where
  is_write-writes :
      (e : Effect V) → is_write e ≡ true → writes_key (dependencies e) (effect_key e) ≡ true
  unfolding is_write effect_type writes_key dependencies effect_key
  is_write-writes (reads _ _ _) h = cc
  is_write-writes (writes store key _) h = ground (arith, eq_refl (full_key store key))
  is_write-writes (transfers from to cs) h = ground (arith, eq_refl from)
  is_write-writes (emits _ _) h = cc
  is_write-writes (deletes store key) h = ground (arith, eq_refl (full_key store key))

  is_read_reads :
      (e : Effect V) → is_read e ≡ true → reads_key (dependencies e) (effect_key e) ≡ true
  unfolding is_read effect_type reads_key dependencies effect_key
  is_read_reads (reads store key _) h = ground (arith, eq_refl (full_key store key))
  is_read_reads (writes store key _) h = cc
  is_read_reads (transfers from to cs) h = cc
  is_read_reads (emits _ _) h = cc
  is_read_reads (deletes store key) h = cc

  detect_conflict-clash :
      (e f : Effect V)
      → clash (dependencies e) (dependencies f) ≡ false
      → detect_conflict e f ≡ none
  unfolding detect_conflict
  detect_conflict-clash e f h = ground (
    arith,
    eq_iff (effect_key e) (effect_key f),
    is_write-writes e,
    is_write-writes f,
    is_read_reads e,
    is_read_reads f,
    writes-clash (dependencies e) (dependencies f) (effect_key e),
    reads-clash (dependencies e) (dependencies f) (effect_key e),
  )

  detect_conflict-sym : (e f : Effect V) → detect_conflict e f ≡ none → detect_conflict f e ≡ none
  unfolding detect_conflict
  detect_conflict-sym e f h =
      ground (arith, eq_iff (effect_key e) (effect_key f), eq_iff (effect_key f) (effect_key e))

  dependency_list-at :
      (es : List (Effect V)) (i : ℕ) (e : Effect V)
      → get_elem? es i ≡ some e
      → dependency_list es i ≡ dependencies e
  unfolding dependency_list
  dependency_list-at [] i e h = cc
  dependency_list-at (x ∷ es) zero e h = ground (arith)
  dependency_list-at (x ∷ es) (suc i) e h = dependency_list-at es i e h

  abbrev pub HasNoConflict : List (Effect V) → ℕ → ℕ → Type 0
  HasNoConflict es i j =
      (e f : Effect V)
      → get_elem? es i ≡ some e
      → get_elem? es j ≡ some f
      → detect_conflict e f ≡ none

  -- Positions of which neither clashes with the earlier one.
  pub no_conflict_lem :
      (es : List (Effect V)) (i j : ℕ)
      → clash (dependency_list es i) (dependency_list es j) ≡ false
      → HasNoConflict es i j × HasNoConflict es j i
  no_conflict_lem es i j h = (
    λ e f p q.
        detect_conflict-clash e f
          (cc (h, dependency_list-at es i e p, dependency_list-at es j f q)),
    λ f e q p. detect_conflict-sym e f (
        detect_conflict-clash e f
          (cc (h, dependency_list-at es i e p, dependency_list-at es j f q))),
  )

  check_against_lem :
      (es : List (Effect V)) (i : ℕ) (e : Effect V) (is : List ℕ)
      → get_elem? es i ≡ some e
      → ((j : ℕ) → contains is j ≡ true → HasNoConflict es i j)
      → check_against e (pick es is) ≡ ok tt
  unfolding check_against contains
  check_against_lem es i e [] p h = refl
  check_against_lem es i e (j ∷ js) p h =
      go (get_elem? es j) refl (check_against_lem es i e js p (λ k m. h k (ground (arith, m))))
        (λ f q. h j (ground arith) e f p q)
    where
      go :
          (o : Option (Effect V))
          → get_elem? es j ≡ o
          → check_against e (pick es js) ≡ ok tt
          → ((f : Effect V) → get_elem? es j ≡ some f → detect_conflict e f ≡ none)
          → check_against e (pick es (j ∷ js)) ≡ ok tt
      go none q r g = rw (q, check_against) r
      go (some f) q r g = rw (q, check_against, g f q) r

  -- A batch of positions without conflicts passes `ValidateBatches`.
  pub validate_batch_lem :
      (es : List (Effect V)) (is : List ℕ)
      → Unique is
      → ((i j : ℕ) → contains is i ≡ true → contains is j ≡ true → i ≢ j → HasNoConflict es i j)
      → validate_batch (pick es is) ≡ ok tt
  unfolding validate_batch contains
  validate_batch_lem es [] u h = refl
  validate_batch_lem es (i ∷ is) u h =
      go (get_elem? es i) refl
        (validate_batch_lem es is u.1 (λ k l m n. h k l (ground (arith, m)) (ground (arith, n))))
        (λ e p.
          check_against_lem es i e is p (λ j m.
            h i j (ground arith) (ground (arith, m)) (λ same. ground (arith, u.0, m, same))))
    where
      go :
          (o : Option (Effect V))
          → get_elem? es i ≡ o
          → validate_batch (pick es is) ≡ ok tt
          → ((e : Effect V) → get_elem? es i ≡ some e → check_against e (pick es is) ≡ ok tt)
          → validate_batch (pick es (i ∷ is)) ≡ ok tt
      go none q r g = rw (q, validate_batch) r
      go (some e) q r g = rw (q, validate_batch, g e q) r
