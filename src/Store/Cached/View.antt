-- ===== src/Store/Cached/View.antt =====
-- What the objects of a cached store are: those of the cache, and those of the backing store where the
-- cache has no entry.
use punnet_sdk.Base.{
  suc, ◌≡◌, refl, sym, ◌∙◌, ap, subst, Bool, true, false, [], Option, none, some, Outcome, ok, err,
  length, ltb, if◌then◌else◌, arith, Bool-cases, inl, inr, add_u64,
}
use punnet_sdk.Base.Bytes.{Bytes, bytes_eq, eq_iff}
use punnet_sdk.Base.Dict.{lookup, is_some, get_or}
use punnet_sdk.Store.Cache
use punnet_sdk.Store.Cache.{Cache, CacheEntry, get_found}
use punnet_sdk.Store.Cache.Entries.{last_of, lookup-last}
use punnet_sdk.Store.Cache.Lru.{IsCache, victim, without, set-IsCache, lookup-set}
use punnet_sdk.Store.Levels
use punnet_sdk.Store.Levels.{
  MultiLevelCache, CacheLevel, ask_l1, ask_l2, l1_cache, l2_cache, l3_cache,
}
use punnet_sdk.Store.Cached.{Serializer, CachedObjectStore, put}

picked :
    {A : Type 0} (b c : Bool) (o : Option A) {x : A}
    → (if b then none else if c then o else none) ≡ some x
    → o ≡ some x
picked true c o h = cc
picked false true o h = h
picked false false o h = cc

module _ {V : Type 0} where
  -- The object of an entry; a deleted entry has none.
  abbrev pub shown : CacheEntry V → Option V
  shown e = if e.deleted then none else some e.value

  abbrev pub known : Outcome V → Option V
  known (ok v) = some v
  known (err e) = none

  abbrev pub decoded : Serializer V → Option Bytes → Option V
  decoded codec none = none
  decoded codec (some d) = known (codec.unmarshal d)

  -- The object that the backing store holds.
  abbrev pub stored : Serializer V → CachedObjectStore V → Bytes → Option V
  stored codec s j = decoded codec (lookup j s.backing)

  abbrev pub cached : CachedObjectStore V → Bytes → Option (CacheEntry V)
  cached s j = lookup j s.cache.l1.entries

  abbrev pub shown_or : Option V → Option (CacheEntry V) → Option V
  shown_or o none = o
  shown_or o (some e) = shown e

  -- The object that the store holds for its callers.
  abbrev pub view : Serializer V → CachedObjectStore V → Bytes → Option V
  view codec s j = shown_or (stored codec s j) (cached s j)

  abbrev pub is_dirty : Option (Bytes × CacheEntry V) → Bool
  is_dirty none = false
  is_dirty (some (k, e)) = e.dirty

  -- A write of the key would evict an entry that has not been flushed.
  abbrev pub loses : Bytes → CachedObjectStore V → Bool
  loses k s = is_dirty (victim k s.cache.l1)

  -- The caches are well formed, the second level is empty, and an entry that is not dirty shows what
  -- the backing store holds.
  pub record IsStore (codec : Serializer V) (s : CachedObjectStore V) : Type 0 where
    pub l1_IsCache : IsCache s.cache.l1
    pub l2_empty : s.cache.l2.entries ≡ []
    pub agrees :
        (j : Bytes) (e : CacheEntry V)
        → cached s j ≡ some e
        → e.dirty ≡ false
        → shown e ≡ stored codec s j

  -- The entry that would be evicted is in the cache.
  pub victim_cached :
      (k : Bytes) (c : Cache V) (i : Bytes) (f : CacheEntry V)
      → IsCache c
      → victim k c ≡ some (i, f)
      → lookup i c.entries ≡ some f
  victim_cached k c i f h e = lookup-last c.entries i f h.distinct (
      picked (is_some (lookup k c.entries)) (ltb c.capacity (suc (length c.entries)))
        (last_of c.entries) e)

  module _ (codec : Serializer V) (s : CachedObjectStore V) (h : IsStore codec s) where
    -- Where the evicted entry is not dirty, the objects do not change with it.
    without_clean :
        (k j : Bytes)
        → loses k s ≡ false
        → shown_or (stored codec s j) (without (victim k s.cache.l1) j (cached s j))
          ≡ view codec s j
    without_clean k j clean = go (victim k s.cache.l1) refl
      where
        at :
            (i : Bytes) (f : CacheEntry V)
            → cached s i ≡ some f
            → f.dirty ≡ false
            → bytes_eq i j ≡ true
            → stored codec s j ≡ view codec s j
        at i f c d t =
            let same = (eq_iff i j).0 t in
            let at_j = ap (cached s) (sym same) ∙ c in rw (at_j) (sym (h.agrees j f at_j d))

        go :
            (o : Option (Bytes × CacheEntry V))
            → victim k s.cache.l1 ≡ o
            → shown_or (stored codec s j) (without o j (cached s j)) ≡ view codec s j
        go none e = refl
        go (some (i, f)) e = elim (Bool-cases (bytes_eq i j)) [
          | inl t ↦ rw (t) (
              at i f (victim_cached k s.cache.l1 i f h.l1_IsCache e) (ap is_dirty (sym e) ∙ clean)
                t)
          | inr t ↦ rw (t) refl
        ]

    cached-put :
        (k : Bytes) (x : CacheEntry V) (j : Bytes)
        → cached (put k x s) j
          ≡ (if bytes_eq k j then some x else without (victim k s.cache.l1) j (cached s j))
    unfolding Levels.set
    cached-put k x j = lookup-set s.cache.l1 h.l1_IsCache k x j

    -- An entry that is put in the cache is what its key shows.
    pub view-put :
        (k : Bytes) (x : CacheEntry V) (j : Bytes)
        → loses k s ≡ false
        → view codec (put k x s) j ≡ (if bytes_eq k j then shown x else view codec s j)
    view-put k x j clean =
        ap (shown_or (stored codec s j)) (cached-put k x j)
        ∙ split (bytes_eq k j) _ (without_clean k j clean)
      where
        split :
            (b : Bool) (o : Option (CacheEntry V))
            → shown_or (stored codec s j) o ≡ view codec s j
            → shown_or (stored codec s j) (if b then some x else o)
              ≡ (if b then shown x else view codec s j)
        split true o e = refl
        split false o e = e

    kept_entry :
        (o : Option (Bytes × CacheEntry V)) (j : Bytes) (c : Option (CacheEntry V))
        {e : CacheEntry V}
        → without o j c ≡ some e
        → c ≡ some e
    kept_entry none j c p = p
    kept_entry (some (i, f)) j c p = elim (Bool-cases (bytes_eq i j)) [
      | inl t ↦ ground (arith, t, p)
      | inr t ↦ ground (arith, t, p)
    ]

    agrees_put :
        (k : Bytes) (x : CacheEntry V) (j : Bytes) (e : CacheEntry V) (b : Bool)
        → (x.dirty ≡ false → shown x ≡ stored codec s k)
        → bytes_eq k j ≡ b
        → (if b then some x else without (victim k s.cache.l1) j (cached s j)) ≡ some e
        → e.dirty ≡ false
        → shown e ≡ stored codec s j
    agrees_put k x j e true clean t p d =
        let same = ap (get_or x) p in
        sym (ap shown same)
        ∙ subst (λ i. shown x ≡ stored codec s i) ((eq_iff k j).0 t)
            (clean (subst (λ y. y.dirty ≡ false) (sym same) d))
    agrees_put k x j e false clean t p d =
        h.agrees j e (kept_entry (victim k s.cache.l1) j (cached s j) p) d

    pub put-IsStore :
        (k : Bytes) (x : CacheEntry V)
        → (x.dirty ≡ false → shown x ≡ stored codec s k)
        → IsStore codec (put k x s)
    unfolding Levels.set
    put-IsStore k x clean = record {
      l1_IsCache = set-IsCache s.cache.l1 h.l1_IsCache k x;
      l2_empty = h.l2_empty;
      agrees =
          λ j e c d. agrees_put k x j e (bytes_eq k j) clean refl (sym (cached-put k x j) ∙ c) d;
    }

module _ {V : Type 0} where
  pub get_hit :
      (k : Bytes) (mc : MultiLevelCache V) (e : CacheEntry V)
      → lookup k mc.l1.entries ≡ some e
      → Levels.get k mc ≡ ((some e, l1_cache), record mc { l1 = (Cache.get k mc.l1).1 })
  unfolding Levels.get Cache.get lookup
  get_hit k mc e h = rw (h) refl

  -- The caches behind a miss in both.
  abbrev pub missed : MultiLevelCache V → MultiLevelCache V
  missed mc = record {
    l1 = record mc.l1 { misses = add_u64 mc.l1.misses 1 };
    l2 = record mc.l2 { misses = add_u64 mc.l2.misses 1 };
  }

  pub get_miss :
      (k : Bytes) (mc : MultiLevelCache V)
      → lookup k mc.l1.entries ≡ none
      → mc.l2.entries ≡ []
      → Levels.get k mc ≡ ((none, l3_cache), missed mc)
  unfolding Levels.get Cache.get lookup
  get_miss k mc h e = rw (h, miss2) refl
    where
      miss2 : lookup k mc.l2.entries ≡ none
      miss2 = rw (e) refl
