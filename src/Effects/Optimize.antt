-- ===== src/Effects/Optimize.antt =====
-- effects/scheduler.go: `OptimizeBatches`, which joins batches. A largest size that is not positive is
-- the size 0.
use punnet_sdk.Base.{
  ℕ, ◌+◌, ◌≤◌, ◌≡◌, refl, sym, ◌∙◌, ap, false, ◌&&◌, ◌||◌, List, [], ◌∷◌, ◌++◌, some, length, ltb,
  ◌==◌, if◌then◌else◌, arith, err, conflict_detected, Bool-cases, inl, inr,
}
use punnet_sdk.Effects.Effect.{Effect, Conflict, detect_conflict}
use punnet_sdk.Effects.Schedule.{
  Batch, extract_effects, validate_batches, validate_batch, check_against,
}

module _ {V : Type 0} where
  -- The current batch behind a batch that is added to it.
  unfoldable pub add_batch : Batch V → Batch V → Batch V
  add_batch current b =
      let joined = current.effects ++ b.effects in
      record {
        effects = joined;
        level = if current.level == 0 && ltb 0 (length joined) then b.level else current.level;
      }

  -- The loop over the batches from the position `i` on, and what follows it.
  unfoldable pub optimize_from : ℕ → ℕ → Batch V → List (Batch V) → List (Batch V)
  unfolding add_batch
  optimize_from size i current [] = if ltb 0 (length current.effects) then current ∷ [] else []
  optimize_from size i current (b ∷ bs) =
      let joined = optimize_from size (i + 1) (add_batch current b) bs in
      let fresh =
        optimize_from size (i + 1) (add_batch (record { effects = []; level = i }) b) bs in
      if ltb size (length current.effects + length b.effects) && ltb 0 (length current.effects)
      then current ∷ fresh
      else joined

  unfoldable pub optimize_batches : List (Batch V) → ℕ → List (Batch V)
  unfolding optimize_from
  optimize_batches batches size =
      if (length batches == 0) || (size == 0)
      then batches
      else optimize_from size 0 (record { effects = []; level = 0 }) batches

  append_nil : (es : List (Effect V)) → es ++ [] ≡ es
  append_nil [] = refl
  append_nil (e ∷ es) = ap (λ fs. e ∷ fs) (append_nil es)

  append_assoc : (es fs gs : List (Effect V)) → (es ++ fs) ++ gs ≡ es ++ (fs ++ gs)
  append_assoc [] fs gs = refl
  append_assoc (e ∷ es) fs gs = ap (λ hs. e ∷ hs) (append_assoc es fs gs)

  empty_list : (es : List (Effect V)) → ltb 0 (length es) ≡ false → es ≡ []
  empty_list [] h = refl
  empty_list (e ∷ es) h = ground (arith, h)

  optimize_from_keeps :
      (size i : ℕ) (current : Batch V) (bs : List (Batch V))
      → extract_effects (optimize_from size i current bs) ≡ current.effects ++ extract_effects bs
  unfolding optimize_from extract_effects add_batch
  optimize_from_keeps size i current [] = elim (Bool-cases (ltb 0 (length current.effects))) [
    | inl t ↦ rw (t) refl
    | inr t ↦ rw (t) (sym (append_nil current.effects ∙ empty_list current.effects t))
  ]
  optimize_from_keeps size i current (b ∷ bs) =
      elim (Bool-cases
        (ltb size (length current.effects + length b.effects) && ltb 0 (length current.effects))) [
          | inl t ↦ rw (t) (
              ap (λ es. current.effects ++ es)
                (optimize_from_keeps size (i + 1) (add_batch (record { effects = []; level = i }) b)
                  bs))
          | inr t ↦ rw (t) (
              optimize_from_keeps size (i + 1) (add_batch current b) bs
              ∙ append_assoc current.effects b.effects (extract_effects bs))
        ]

  -- Joining batches keeps all effects in their order.
  pub extract_effects-optimize_batches :
      (bs : List (Batch V)) (size : ℕ)
      → extract_effects (optimize_batches bs size) ≡ extract_effects bs
  unfolding optimize_batches
  extract_effects-optimize_batches bs size = elim (Bool-cases ((length bs == 0) || (size == 0))) [
    | inl t ↦ rw (t) refl
    | inr t ↦ rw (t) (optimize_from_keeps size 0 (record { effects = []; level = 0 }) bs)
  ]

  against_conflict :
      (e f : Effect V) (c : Conflict V)
      → detect_conflict e f ≡ some c
      → check_against e (f ∷ []) ≡ err conflict_detected
  unfolding check_against
  against_conflict e f c h = rw (h, check_against) refl

  -- Two batches of one effect each, where the two effects have a conflict, are joined when the
  -- largest size is two or more, and the result fails the check for conflicts inside a batch.
  pub validate_batches-optimize_batches :
      (e f : Effect V) (c : Conflict V) (k l size : ℕ)
      → detect_conflict e f ≡ some c
      → 2 ≤ size
      → validate_batches (
          optimize_batches
            (record { effects = e ∷ []; level = k } ∷ record { effects = f ∷ []; level = l } ∷ [])
            size)
        ≡ err conflict_detected
  unfolding optimize_batches optimize_from add_batch validate_batches validate_batch
  validate_batches-optimize_batches e f c k l size h le =
      let large : ltb size 2 ≡ false = ground (arith, le) in
      let some_size : (size == 0) ≡ false = ground (arith, le) in
      let fits : ltb size 1 ≡ false = ground (arith, le) in
      rw (some_size, fits, large, against_conflict e f c h) refl
