-- ===== src/Store/Cache/Recency.antt =====
-- The order of use of the LRU cache of store/cache.go, told by the calls that have been made.
use punnet_sdk.Base.{
  ℕ, suc, ◌<◌, ◌≡◌, Bool, true, false, ◌&&◌, List, [], ◌∷◌, none, leb, if◌then◌else◌, arith, All,
  Bool-cases, inl, inr,
}
use punnet_sdk.Base.Bytes.{Bytes, bytes_eq, eq_iff}
use punnet_sdk.Base.Dict.{Dict, lookup, remove}
use punnet_sdk.Store.Cache
use punnet_sdk.Store.Cache.{
  Cache, CacheEntry, drop_last, evict_lru, get_found, clear_dirty_flag, new_cache, to_front,
}

-- The calls of a cache that change it.
pub data CacheCall (V : Type 0) : Type 0 where
  get_entry : Bytes → CacheCall V
  set_entry : Bytes → CacheEntry V → CacheCall V
  delete_entry : Bytes → CacheCall V
  clear_entries : CacheCall V
  clear_flag : Bytes → CacheCall V

module _ {V : Type 0} where
  abbrev pub after : CacheCall V → Cache V → Cache V
  after (get_entry k) c = (Cache.get k c).1
  after (set_entry k e) c = Cache.set k e c
  after (delete_entry k) c = Cache.delete k c
  after clear_entries c = Cache.clear c
  after (clear_flag k) c = record c { entries = clear_dirty_flag k c.entries }

  -- The cache behind the calls, of which the list has the last one first.
  unfoldable pub run : List (CacheCall V) → Cache V → Cache V
  run [] c = c
  run (call ∷ calls) c = after call (run calls c)

  -- The calls that use an entry: `Get` and `Set` of its key.
  abbrev pub uses : CacheCall V → Bytes → Bool
  uses (get_entry k) j = bytes_eq k j
  uses (set_entry k e) j = bytes_eq k j
  uses _ j = false

  -- How many calls have been made since the last one that uses the key.
  unfoldable pub age : List (CacheCall V) → Bytes → ℕ
  age [] j = 0
  age (call ∷ calls) j = let rest = age calls j in if uses call j then 0 else suc rest

  -- No key of the map has been left unused for longer.
  unfoldable pub is_oldest : List (CacheCall V) → Bytes → Dict (CacheEntry V) → Bool
  is_oldest calls j [] = true
  is_oldest calls j ((i, e) ∷ es) = leb (age calls i) (age calls j) && is_oldest calls j es

  -- Every key has been used later than the keys behind it.
  abbrev pub ByAge : List (CacheCall V) → Dict (CacheEntry V) → Type 0
  ByAge calls [] = Unit
  ByAge calls ((i, e) ∷ es) = All (λ x. age calls i < age calls x.0) es × ByAge calls es

  All-remove :
      (P : Bytes × CacheEntry V → Type 0) (k : Bytes) (es : Dict (CacheEntry V))
      → All P es
      → All P (remove k es)
  unfolding remove
  All-remove P k [] h = tt
  All-remove P k ((i, e) ∷ es) h = elim (Bool-cases (bytes_eq i k)) [
    | inl t ↦ rw (t) (All-remove P k es h.1)
    | inr t ↦ rw (t) (h.0, All-remove P k es h.1)
  ]

  pub remove-ByAge :
      (calls : List (CacheCall V)) (k : Bytes) (es : Dict (CacheEntry V))
      → ByAge calls es
      → ByAge calls (remove k es)
  unfolding remove
  remove-ByAge calls k [] h = tt
  remove-ByAge calls k ((i, e) ∷ es) h = elim (Bool-cases (bytes_eq i k)) [
    | inl t ↦ rw (t) (remove-ByAge calls k es h.1)
    | inr t ↦ rw (t) (All-remove _ k es h.0, remove-ByAge calls k es h.1)
  ]

  All-drop_last :
      (P : Bytes × CacheEntry V → Type 0) (es : Dict (CacheEntry V))
      → All P es
      → All P (drop_last es)
  unfolding drop_last
  All-drop_last P [] h = tt
  All-drop_last P (x ∷ []) h = tt
  All-drop_last P (x ∷ y ∷ es) h = (h.0, All-drop_last P (y ∷ es) h.1)

  pub drop_last-ByAge :
      (calls : List (CacheCall V)) (es : Dict (CacheEntry V))
      → ByAge calls es
      → ByAge calls (drop_last es)
  unfolding drop_last
  drop_last-ByAge calls [] h = tt
  drop_last-ByAge calls (x ∷ []) h = tt
  drop_last-ByAge calls (x ∷ y ∷ es) h =
      (All-drop_last _ (y ∷ es) h.0, drop_last-ByAge calls (y ∷ es) h.1)

  All-clear_dirty_flag :
      (P : Bytes → Type 0) (k : Bytes) (es : Dict (CacheEntry V))
      → All (λ x. P x.0) es
      → All (λ x. P x.0) (clear_dirty_flag k es)
  unfolding clear_dirty_flag
  All-clear_dirty_flag P k [] h = tt
  All-clear_dirty_flag P k ((i, e) ∷ es) h = elim (Bool-cases (bytes_eq i k)) [
    | inl t ↦ rw (t) (h.0, h.1)
    | inr t ↦ rw (t) (h.0, All-clear_dirty_flag P k es h.1)
  ]

  pub clear_dirty_flag-ByAge :
      (calls : List (CacheCall V)) (k : Bytes) (es : Dict (CacheEntry V))
      → ByAge calls es
      → ByAge calls (clear_dirty_flag k es)
  unfolding clear_dirty_flag
  clear_dirty_flag-ByAge calls k [] h = tt
  clear_dirty_flag-ByAge calls k ((i, e) ∷ es) h = elim (Bool-cases (bytes_eq i k)) [
    | inl t ↦ rw (t) (h.0, h.1)
    | inr t ↦ rw (t) (
      All-clear_dirty_flag (λ j. age calls i < age calls j) k es h.0,
      clear_dirty_flag-ByAge calls k es h.1,
    )
  ]

  -- A call that uses none of the keys makes all of them older.
  abbrev pub Unused : CacheCall V → Dict (CacheEntry V) → Type 0
  Unused call es = All (λ x. uses call x.0 ≡ false) es

  older_than :
      (call : CacheCall V) (calls : List (CacheCall V)) (i : Bytes) (es : Dict (CacheEntry V))
      → uses call i ≡ false
      → Unused call es
      → All (λ x. age calls i < age calls x.0) es
      → All (λ x. age (call ∷ calls) i < age (call ∷ calls) x.0) es
  unfolding age
  older_than call calls i [] u us h = tt
  older_than call calls i (x ∷ es) u us h =
      (rw (u, us.0) (omega (arith, h.0)), older_than call calls i es u us.1 h.1)

  pub Unused-ByAge :
      (call : CacheCall V) (calls : List (CacheCall V)) (es : Dict (CacheEntry V))
      → Unused call es
      → ByAge calls es
      → ByAge (call ∷ calls) es
  Unused-ByAge call calls [] us h = tt
  Unused-ByAge call calls ((i, e) ∷ es) us h =
      (older_than call calls i es us.0 us.1 h.0, Unused-ByAge call calls es us.1 h.1)

  -- The key that a call uses is the youngest one.
  youngest :
      (call : CacheCall V) (calls : List (CacheCall V)) (k : Bytes) (es : Dict (CacheEntry V))
      → uses call k ≡ true
      → Unused call es
      → All (λ x. age (call ∷ calls) k < age (call ∷ calls) x.0) es
  unfolding age
  youngest call calls k [] u us = tt
  youngest call calls k (x ∷ es) u us =
      (rw (u, us.0) (omega arith), youngest call calls k es u us.1)

  pub front-ByAge :
      (call : CacheCall V) (calls : List (CacheCall V)) (k : Bytes) (e : CacheEntry V)
      (es : Dict (CacheEntry V))
      → uses call k ≡ true
      → Unused call es
      → ByAge calls es
      → ByAge (call ∷ calls) ((k, e) ∷ es)
  front-ByAge call calls k e es u us h =
      (youngest call calls k es u us, Unused-ByAge call calls es us h)

  -- Keys that are not in the map.
  pub absent :
      (k : Bytes) (es : Dict (CacheEntry V))
      → lookup k es ≡ none
      → All (λ x. bytes_eq k x.0 ≡ false) es
  unfolding lookup
  absent k [] h = tt
  absent k ((i, e) ∷ es) h =
      (ground (arith, h, eq_iff i k, eq_iff k i), absent k es (ground (arith, h)))

  pub removed :
      (k : Bytes) (es : Dict (CacheEntry V)) → All (λ x. bytes_eq k x.0 ≡ false) (remove k es)
  unfolding remove
  removed k [] = tt
  removed k ((i, e) ∷ es) = elim (Bool-cases (bytes_eq i k)) [
    | inl t ↦ rw (t) (removed k es)
    | inr t ↦ rw (t) (ground (arith, t, eq_iff i k, eq_iff k i), removed k es)
  ]

  pub never :
      (call : CacheCall V) (es : Dict (CacheEntry V))
      → ((j : Bytes) → uses call j ≡ false)
      → Unused call es
  never call [] h = tt
  never call ((i, e) ∷ es) h = (h i, never call es h)
