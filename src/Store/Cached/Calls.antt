-- ===== src/Store/Cached/Calls.antt =====
-- The calls of a cached store as changes of its objects: reads, writes and deletions.
use punnet_sdk.Base.{
  ℕ, ◌≡◌, refl, sym, ◌∙◌, ap, Bool, true, false, ◌∷◌, Option, none, some, Outcome, ok, err,
  if◌then◌else◌, arith, Bool-cases, inl, inr, key_not_found,
}
use punnet_sdk.Base.Bytes.{Bytes, bytes_eq, eq_iff}
use punnet_sdk.Base.Dict.{lookup}
use punnet_sdk.Store.Cache
use punnet_sdk.Store.Cache.{Cache, CacheEntry}
use punnet_sdk.Store.Cache.Lru.{get-IsCache, lookup-get}
use punnet_sdk.Store.Levels
use punnet_sdk.Store.Levels.{MultiLevelCache}
use punnet_sdk.Store.Memory.{Memory, validate_key}
use punnet_sdk.Store.Memory
use punnet_sdk.Store.Objects.{found}
use punnet_sdk.Store.Cached.{
  Serializer, CachedObjectStore, put, checks, behind, ask, load, loaded, clean_entry, dirty_entry,
  deleted_entry,
}
use punnet_sdk.Store.Cached
use punnet_sdk.Store.Cached.View.{
  shown, known, decoded, stored, cached, shown_or, view, loses, IsStore, view-put, put-IsStore,
  get_hit, get_miss, missed,
}

memory_get :
    (m : Memory) (b : ℕ) (k : Bytes) (o : Option Bytes)
    → lookup (b ∷ k) m ≡ o
    → Memory.get m (b ∷ k) ≡ Memory.found o
unfolding Memory.get validate_key
memory_get m b k o h = rw (h) (ground arith)

module _ {V : Type 0} where
  pub passes :
      (s : CachedObjectStore V) (b : ℕ) (k : Bytes) → s.closed ≡ false → checks s (b ∷ k) ≡ ok tt
  unfolding checks validate_key
  passes s b k h = rw (h) (ground arith)

  -- The data in the backing store, under valid keys, are readable by the serializer.
  abbrev pub Readable : Serializer V → Memory → Type 0
  Readable codec m = (k d : Bytes) → lookup k m ≡ some d → (v : V) × (codec.unmarshal d ≡ ok v)

  shown-found :
      (e : CacheEntry V) → (if e.deleted then err key_not_found else ok e.value) ≡ found (shown e)
  shown-found e = split e.deleted
    where
      split :
          (b : Bool)
          → (if b then err key_not_found else ok e.value) ≡ found (if b then none else some e.value)
      split true = refl
      split false = refl

  module _ (codec : Serializer V) (s : CachedObjectStore V) (h : IsStore codec s)
      (is_open : s.closed ≡ false) where
    hit-IsStore :
        (k : Bytes)
        → IsStore codec (record s { cache = record s.cache { l1 = (Cache.get k s.cache.l1).1 } })
    hit-IsStore k = record {
      l1_IsCache = get-IsCache s.cache.l1 h.l1_IsCache k;
      l2_empty = h.l2_empty;
      agrees = λ j e c d. h.agrees j e (sym (lookup-get s.cache.l1 k j).1 ∙ c) d;
    }

    miss-IsStore : IsStore codec (record s { cache = missed s.cache })
    miss-IsStore = record {
      l1_IsCache = record {
        positive = h.l1_IsCache.positive;
        bounded = h.l1_IsCache.bounded;
        distinct = h.l1_IsCache.distinct;
      };
      l2_empty = h.l2_empty;
      agrees = h.agrees;
    }

    loaded_view :
        (k j : Bytes) (v : V)
        → view codec s k ≡ some v
        → (if bytes_eq k j then some v else view codec s j) ≡ view codec s j
    loaded_view k j v e = elim (Bool-cases (bytes_eq k j)) [
      | inl t ↦ rw (t) (sym e ∙ ap (view codec s) ((eq_iff k j).0 t))
      | inr t ↦ rw (t) refl
    ]

    -- A read of a key that is not empty.
    abbrev Reads : Bytes → Outcome V × CachedObjectStore V → Type 0
    Reads k r =
        (r.0 ≡ found (view codec s k))
        × IsStore codec r.1
        × (loses k s ≡ false → (j : Bytes) → view codec r.1 j ≡ view codec s j)

    get_behind :
        (b : ℕ) (k : Bytes) (o : Option (CacheEntry V)) (d : Option Bytes)
        → Readable codec s.backing
        → cached s (b ∷ k) ≡ o
        → lookup (b ∷ k) s.backing ≡ d
        → Reads (b ∷ k) (ask codec (b ∷ k) s (Levels.get (b ∷ k) s.cache))
    get_behind b k (some e) d readable c q =
        rw (get_hit (b ∷ k) s.cache e c, c)
          (
            shown-found e,
            hit-IsStore (b ∷ k),
            λ _ j. ap (shown_or (stored codec s j)) (lookup-get s.cache.l1 (b ∷ k) j).1,
          )
    get_behind b k none none readable c q =
        rw (get_miss (b ∷ k) s.cache c h.l2_empty, memory_get s.backing b k none q, c, q)
          (refl, miss-IsStore, λ _ j. refl)
    get_behind b k none (some d) readable c q =
        let (v, u) = readable (b ∷ k) d q in
        let held = ap (decoded codec) q ∙ ap known u in
        let s' = record s { cache = missed s.cache } in
        rw (get_miss (b ∷ k) s.cache c h.l2_empty, memory_get s.backing b k (some d) q, u)
          (
            sym (ap found (ap (shown_or (stored codec s (b ∷ k))) c ∙ held)),
            put-IsStore codec s' miss-IsStore (b ∷ k) (clean_entry v) (λ _. sym held),
            λ clean j.
                view-put codec s' miss-IsStore (b ∷ k) (clean_entry v) j clean
                ∙ loaded_view (b ∷ k) j v (ap (shown_or (stored codec s (b ∷ k))) c ∙ held),
          )

    cached_get_lem :
        (b : ℕ) (k j : Bytes)
        → Readable codec s.backing
        → loses (b ∷ k) s ≡ false
        → ((Cached.get codec s (b ∷ k)).0 ≡ found (view codec s (b ∷ k)))
          × IsStore codec (Cached.get codec s (b ∷ k)).1
          × (view codec (Cached.get codec s (b ∷ k)).1 j ≡ view codec s j)
    unfolding Cached.get
    cached_get_lem b k j readable clean =
        let (value, wf, same) =
          get_behind b k (cached s (b ∷ k)) (lookup (b ∷ k) s.backing) readable refl refl in
        rw (passes s b k is_open) (value, wf, same clean j)

    cached_set_lem :
        (b : ℕ) (k : Bytes) (v : V) (j : Bytes)
        → loses (b ∷ k) s ≡ false
        → ((Cached.set s (b ∷ k) v).0 ≡ ok tt)
          × IsStore codec (Cached.set s (b ∷ k) v).1
          × (view codec (Cached.set s (b ∷ k) v).1 j
              ≡ (if bytes_eq (b ∷ k) j then some v else view codec s j))
    unfolding Cached.set
    cached_set_lem b k v j clean = rw (passes s b k is_open) (
      refl,
      put-IsStore codec s h (b ∷ k) (dirty_entry v) (λ d. cc),
      view-put codec s h (b ∷ k) (dirty_entry v) j clean,
    )

    cached_delete_lem :
        (zero_value : V) (b : ℕ) (k j : Bytes)
        → loses (b ∷ k) s ≡ false
        → ((Cached.delete zero_value s (b ∷ k)).0 ≡ ok tt)
          × IsStore codec (Cached.delete zero_value s (b ∷ k)).1
          × (view codec (Cached.delete zero_value s (b ∷ k)).1 j
              ≡ (if bytes_eq (b ∷ k) j then none else view codec s j))
    unfolding Cached.delete
    cached_delete_lem zero_value b k j clean = rw (passes s b k is_open) (
      refl,
      put-IsStore codec s h (b ∷ k) (deleted_entry zero_value) (λ d. cc),
      view-put codec s h (b ∷ k) (deleted_entry zero_value) j clean,
    )

    -- On an open store that is well formed, for a key that is not empty, and where the entry that a write
    -- of the key would evict, if there is one, has been flushed and the data of the backing store can be
    -- read: a read gives the key's object, or the error of a missing key, and changes no object; a write
    -- and a deletion succeed, and then the key shows the value or nothing, and every other key what it
    -- showed. All three keep the store well formed.
    pub cached_calls_lem :
        (zero_value : V) (b : ℕ) (k : Bytes) (v : V) (j : Bytes)
        → Readable codec s.backing
        → loses (b ∷ k) s ≡ false
        → (((Cached.get codec s (b ∷ k)).0 ≡ found (view codec s (b ∷ k)))
            × IsStore codec (Cached.get codec s (b ∷ k)).1
            × (view codec (Cached.get codec s (b ∷ k)).1 j ≡ view codec s j))
          × (((Cached.set s (b ∷ k) v).0 ≡ ok tt)
              × IsStore codec (Cached.set s (b ∷ k) v).1
              × (view codec (Cached.set s (b ∷ k) v).1 j
                  ≡ (if bytes_eq (b ∷ k) j then some v else view codec s j)))
          × (((Cached.delete zero_value s (b ∷ k)).0 ≡ ok tt)
              × IsStore codec (Cached.delete zero_value s (b ∷ k)).1
              × (view codec (Cached.delete zero_value s (b ∷ k)).1 j
                  ≡ (if bytes_eq (b ∷ k) j then none else view codec s j)))
    cached_calls_lem zero_value b k v j readable clean = (
      cached_get_lem b k j readable clean,
      cached_set_lem b k v j clean,
      cached_delete_lem zero_value b k j clean,
    )
