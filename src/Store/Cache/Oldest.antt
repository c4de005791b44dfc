-- ===== src/Store/Cache/Oldest.antt =====
-- Which entry a full cache of store/cache.go evicts.
use punnet_sdk.Base.{
  ℕ, suc, ◌<◌, ◌≡◌, refl, ap, ◌∙◌, subst, Bool, true, false, not, ◌&&◌, List, [], ◌∷◌, Option, none,
  some, length, ltb, leb, if◌then◌else◌, arith, All, Bool-cases, inl, inr,
}
use punnet_sdk.Base.Bytes.{Bytes, bytes_eq, eq_iff}
use punnet_sdk.Base.Dict.{Dict, lookup, is_some}
use punnet_sdk.Store.Cache
use punnet_sdk.Store.Cache.{
  Cache, CacheEntry, drop_last, evict_lru, get_found, clear_dirty_flag, new_cache,
}
use punnet_sdk.Store.Cache.Entries.{last_of, last_of-some}
use punnet_sdk.Store.Cache.Lru.{IsCache, set-IsCache, lookup-set, victim, without}
use punnet_sdk.Store.Cache.Recency.{CacheCall, run, age, is_oldest, ByAge}
use punnet_sdk.Store.Cache.Kept.{run_lem}

full_suc : (m n : ℕ) → leb m n ≡ true → ltb m (suc n) ≡ true
full_suc m n h = ground (arith, h)

room_suc : (m n : ℕ) → leb m n ≡ false → ltb m (suc n) ≡ false
room_suc m n h = ground (arith, h)

module _ {V : Type 0} where
  -- The last entry is the oldest one, and the only one.
  abbrev key_or : Bytes → Option (Bytes × CacheEntry V) → Bytes
  key_or k none = k
  key_or k (some x) = x.0

  All-last :
      (P : Bytes → Type 0) (es : Dict (CacheEntry V)) (i : Bytes) (f : CacheEntry V)
      → All (λ x. P x.0) es
      → last_of es ≡ some (i, f)
      → P i
  All-last P [] i f h e = cc
  All-last P (x ∷ []) i f h e = subst P (ap (key_or i) e) h.0
  All-last P (x ∷ y ∷ es) i f h e = All-last P (y ∷ es) i f h.1 e

  module _ (calls : List (CacheCall V)) where
    last-oldest :
        (es : Dict (CacheEntry V)) (i : Bytes) (f : CacheEntry V)
        → ByAge calls es
        → last_of es ≡ some (i, f)
        → is_oldest calls i es ≡ true
    unfolding is_oldest
    last-oldest [] i f h e = refl
    last-oldest (x ∷ []) i f h e = rw (ap (key_or i) e) (ground arith)
    last-oldest (x ∷ y ∷ es) i f h e = ground (
      arith,
      last-oldest (y ∷ es) i f h.1 e,
      All-last (λ j. age calls x.0 < age calls j) (y ∷ es) i f h.0 e,
    )

    younger :
        (es : Dict (CacheEntry V)) (i j : Bytes) (f : CacheEntry V)
        → ByAge calls es
        → last_of es ≡ some (i, f)
        → is_some (lookup j es) ≡ true
        → bytes_eq i j ≡ false
        → age calls j < age calls i
    unfolding lookup
    younger [] i j f h e m n = cc
    younger ((a, b) ∷ []) i j f h e m n = ground (arith, m, n, ap (key_or i) e)
    younger ((a, b) ∷ y ∷ es) i j f h e m n = elim (Bool-cases (bytes_eq a j)) [
      | inl t ↦
          subst (λ l. age calls l < age calls i) ((eq_iff a j).0 t)
            (All-last (λ l. age calls a < age calls l) (y ∷ es) i f h.0 e)
      | inr t ↦ younger (y ∷ es) i j f h.1 e (ground (arith, m, t)) n
    ]

    younger-not_oldest :
        (es : Dict (CacheEntry V)) (i j : Bytes) (f : CacheEntry V)
        → last_of es ≡ some (i, f)
        → age calls j < age calls i
        → is_oldest calls j es ≡ false
    unfolding is_oldest
    younger-not_oldest [] i j f e lt = cc
    younger-not_oldest (x ∷ []) i j f e lt = rw (ap (key_or i) e) (ground (arith, lt))
    younger-not_oldest (x ∷ y ∷ es) i j f e lt =
        ground (arith, younger-not_oldest (y ∷ es) i j f e lt)

    is_oldest-last :
        (es : Dict (CacheEntry V)) (i j : Bytes) (f : CacheEntry V)
        → ByAge calls es
        → last_of es ≡ some (i, f)
        → is_some (lookup j es) ≡ true
        → is_oldest calls j es ≡ bytes_eq i j
    is_oldest-last es i j f h e m = elim (Bool-cases (bytes_eq i j)) [
      | inl t ↦
          rw (t)
            (subst (λ l. is_oldest calls l es ≡ true) ((eq_iff i j).0 t) (last-oldest es i f h e))
      | inr t ↦ rw (t) (younger-not_oldest es i j f e (younger es i j f h e m t))
    ]

  last_of-none : (es : Dict (CacheEntry V)) → last_of es ≡ none → (j : Bytes) → lookup j es ≡ none
  unfolding lookup
  last_of-none [] e j = refl
  last_of-none (x ∷ es) e j = let (p, q) = last_of-some x es in ground (arith, q, e)

  without-oldest :
      (calls : List (CacheCall V)) (es : Dict (CacheEntry V)) (j : Bytes)
      → ByAge calls es
      → without (last_of es) j (lookup j es) ≡ (if is_oldest calls j es then none else lookup j es)
  without-oldest calls es j h = go (lookup j es) refl (last_of es) refl
    where
      go :
          (o : Option (CacheEntry V))
          → lookup j es ≡ o
          → (p : Option (Bytes × CacheEntry V)) → last_of es ≡ p
          → without p j o ≡ (if is_oldest calls j es then none else o)
      go none m none e = ground arith
      go none m (some (i, f)) e = ground arith
      go (some x) m none e = ground (arith, m, last_of-none es e j)
      go (some x) m (some (i, f)) e = rw (is_oldest-last calls es i j f h e (ap is_some m)) refl

  -- Setting the key makes room: the cache has not the key, and is full.
  abbrev pub evicts : Bytes → Cache V → Bool
  evicts k c = not (is_some (lookup k c.entries)) && leb c.capacity (length c.entries)

  evicted_by :
      (k j : Bytes) (c : Cache V) (calls : List (CacheCall V))
      → ByAge calls c.entries
      → without (victim k c) j (lookup j c.entries)
        ≡ (if evicts k c && is_oldest calls j c.entries then none else lookup j c.entries)
  evicted_by k j c calls h = elim (Bool-cases (is_some (lookup k c.entries))) [
    | inl found ↦ rw (found) refl
    | inr missing ↦ elim (Bool-cases (leb c.capacity (length c.entries))) [
      | inl full ↦
          rw (missing, full, full_suc c.capacity (length c.entries) full)
            (without-oldest calls c.entries j h)
      | inr room ↦ rw (missing, room, room_suc c.capacity (length c.entries) room) refl
    ]
  ]

  -- A new cache after any calls of `Get`, `Set`, `Delete`, `Clear` and `ClearDirtyFlag`. Setting an entry
  -- keeps the cache within its capacity and its keys distinct, and the key then finds the entry. If the
  -- cache is full and has not the key, the key whose last `Get` or `Set` is the longest ago finds nothing;
  -- every other key finds what it found.
  pub evicts_oldest :
      (calls : List (CacheCall V)) (n : ℕ) (k : Bytes) (e : CacheEntry V) (j : Bytes)
      → IsCache (Cache.set k e (run calls (new_cache n)))
        × (lookup j (Cache.set k e (run calls (new_cache n))).entries ≡ (
            if bytes_eq k j
            then some e
            else if evicts k (run calls (new_cache n))
                && is_oldest calls j (run calls (new_cache n)).entries
            then none
            else lookup j (run calls (new_cache n)).entries))
  evicts_oldest calls n k e j =
      let c = run calls (new_cache n) in
      let h = run_lem calls n in
      (
        set-IsCache c h.0 k e,
        lookup-set c h.0 k e j
            ∙ ap (λ o. if bytes_eq k j then some e else o) (evicted_by k j c calls h.1),
      )
