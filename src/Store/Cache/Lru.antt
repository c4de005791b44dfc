-- ===== src/Store/Cache/Lru.antt =====
-- The operations of the LRU cache: its bound, and what a key finds after them.
use punnet_sdk.Base.{
  suc, ◌≤◌, ◌<◌, ◌≡◌, refl, ap, ◌∙◌, Bool, false, [], ◌∷◌, Option, none, some, length, ltb,
  if◌then◌else◌, arith, Bool-cases, inl, inr,
}
use punnet_sdk.Base.Bytes.{Bytes, bytes_eq, eq_iff, eq_refl}
use punnet_sdk.Base.Dict.{Dict, lookup, remove, is_some, lookup-remove, Distinct, remove-Distinct}
use punnet_sdk.Store.Cache
use punnet_sdk.Store.Cache.{Cache, CacheEntry, drop_last, evict_lru, get_found, clear_dirty_flag}
use punnet_sdk.Store.Cache.Entries.{
  last_of, last_of-some, length-drop_last, length-remove_found, lookup-drop_last,
  drop_last-Distinct,
}

-- The cache has room for an entry, holds no more than its capacity, and no key twice.
pub record IsCache {V : Type 0} (c : Cache V) : Type 0 where
  pub positive : 0 < c.capacity
  pub bounded : length c.entries ≤ c.capacity
  pub distinct : Distinct c.entries

pub is_some-none : {V : Type 0} (o : Option V) → is_some o ≡ false → o ≡ none
is_some-none none h = refl
is_some-none (some v) h = cc

gone : {V : Type 0} (k : Bytes) (m : Dict V) → lookup k (remove k m) ≡ none
gone k m = ground (arith, lookup-remove k k m, eq_refl k)

module _ {V : Type 0} where
  -- The entry that is evicted when `k` is set: the last one of a full cache without `k`.
  abbrev pub victim : Bytes → Cache V → Option (Bytes × CacheEntry V)
  victim k c =
      if is_some (lookup k c.entries)
      then none
      else if ltb c.capacity (suc (length c.entries))
      then last_of c.entries
      else none

  -- What a key finds where an entry has been taken out.
  abbrev pub without :
      Option (Bytes × CacheEntry V) → Bytes → Option (CacheEntry V) → Option (CacheEntry V)
  without none j o = o
  without (some (i, _)) j o = if bytes_eq i j then none else o

  lookup-pushed :
      (k : Bytes) (e : CacheEntry V) (es : Dict (CacheEntry V)) (j : Bytes)
      → 0 < length es
      → Distinct es
      → lookup k es ≡ none
      → lookup j (drop_last ((k, e) ∷ es))
        ≡ (if bytes_eq k j then some e else without (last_of es) j (lookup j es))
  unfolding drop_last lookup
  lookup-pushed k e [] j pos d h = ground (arith, pos)
  lookup-pushed k e (x ∷ es) j pos d h =
      let ((i, f), p) = last_of-some x es in
      rw (p) (ground (arith, lookup-drop_last j (x ∷ es) i f d p))

  module _ (c : Cache V) (h : IsCache c) where
    pub set-IsCache : (k : Bytes) (e : CacheEntry V) → IsCache (Cache.set k e c)
    unfolding Cache.set evict_lru
    set-IsCache k e = elim (Bool-cases (is_some (lookup k c.entries))) [
      | inl found ↦ rw (found) (record {
        positive = h.positive;
        bounded = omega (arith, h.bounded, length-remove_found k c.entries found);
        distinct = (gone k c.entries, remove-Distinct k c.entries h.distinct);
      })
      | inr missing ↦ elim (Bool-cases (ltb c.capacity (suc (length c.entries)))) [
        | inl over ↦
            rw (missing, over)
              (record {
                positive = h.positive;
                bounded = omega (arith, h.bounded, length-drop_last (k, e) c.entries);
                distinct =
                    drop_last-Distinct ((k, e) ∷ c.entries)
                      (is_some-none (lookup k c.entries) missing, h.distinct);
              })
        | inr fits ↦
            rw (missing, fits)
              (record {
                positive = h.positive;
                bounded = ground (arith, fits);
                distinct = (is_some-none (lookup k c.entries) missing, h.distinct);
              })
      ]
    ]

    pub lookup-set :
        (k : Bytes) (e : CacheEntry V) (j : Bytes)
        → lookup j (Cache.set k e c).entries
          ≡ (if bytes_eq k j then some e else without (victim k c) j (lookup j c.entries))
    unfolding Cache.set evict_lru lookup
    lookup-set k e j = elim (Bool-cases (is_some (lookup k c.entries))) [
      | inl found ↦ rw (found) (ground (arith, lookup-remove k j c.entries))
      | inr missing ↦ elim (Bool-cases (ltb c.capacity (suc (length c.entries)))) [
        | inl over ↦
            rw (missing, over)
              (lookup-pushed k e c.entries j (ground (arith, over, h.positive)) h.distinct
                (is_some-none (lookup k c.entries) missing))
        | inr fits ↦ rw (missing, fits) refl
      ]
    ]

    pub get-IsCache : (k : Bytes) → IsCache (Cache.get k c).1
    unfolding Cache.get
    get-IsCache k = go (lookup k c.entries) refl
      where
        go : (o : Option (CacheEntry V)) → lookup k c.entries ≡ o → IsCache (get_found k c o).1
        go none e = record { positive = h.positive; bounded = h.bounded; distinct = h.distinct }
        go (some x) e = record {
          positive = h.positive;
          bounded = omega (arith, h.bounded, length-remove_found k c.entries (ground (arith, e)));
          distinct = (gone k c.entries, remove-Distinct k c.entries h.distinct);
        }

  -- A read finds the entry of the key and changes what no key finds.
  pub lookup-get :
      (c : Cache V) (k j : Bytes)
      → ((Cache.get k c).0 ≡ lookup k c.entries)
        × (lookup j (Cache.get k c).1.entries ≡ lookup j c.entries)
  unfolding Cache.get lookup
  lookup-get c k j = go (lookup k c.entries) refl
    where
      go :
          (o : Option (CacheEntry V))
          → lookup k c.entries ≡ o
          → ((get_found k c o).0 ≡ o) × (lookup j (get_found k c o).1.entries ≡ lookup j c.entries)
      go none e = (refl, refl)
      go (some x) e = (refl, ground (arith, e, eq_iff k j, lookup-remove k j c.entries))

  abbrev pub cleaned : Bool → Option (CacheEntry V) → Option (CacheEntry V)
  cleaned b none = none
  cleaned b (some e) = some (if b then record e { dirty = false } else e)

  pub clean_id : (o : Option (CacheEntry V)) → cleaned false o ≡ o
  clean_id none = refl
  clean_id (some e) = refl

  pub lookup-clear_dirty_flag :
      (k j : Bytes) (es : Dict (CacheEntry V))
      → lookup j (clear_dirty_flag k es) ≡ cleaned (bytes_eq k j) (lookup j es)
  unfolding clear_dirty_flag lookup
  lookup-clear_dirty_flag k j [] = refl
  lookup-clear_dirty_flag k j ((i, e) ∷ es) = ground (
    arith,
    eq_iff i j,
    eq_iff i k,
    eq_iff k j,
    lookup-clear_dirty_flag k j es,
    clean_id (lookup j es),
  )

  length-clear_dirty_flag :
      (k : Bytes) (es : Dict (CacheEntry V)) → length (clear_dirty_flag k es) ≡ length es
  unfolding clear_dirty_flag
  length-clear_dirty_flag k [] = refl
  length-clear_dirty_flag k ((i, e) ∷ es) = ground (arith, length-clear_dirty_flag k es)

  clear_dirty_flag-Distinct :
      (k : Bytes) (es : Dict (CacheEntry V)) → Distinct es → Distinct (clear_dirty_flag k es)
  unfolding clear_dirty_flag
  clear_dirty_flag-Distinct k [] d = tt
  clear_dirty_flag-Distinct k ((i, e) ∷ es) d = elim (Bool-cases (bytes_eq i k)) [
    | inl t ↦ rw (t) d
    | inr t ↦ rw (t) (
      lookup-clear_dirty_flag k i es ∙ ap (cleaned (bytes_eq k i)) d.0,
      clear_dirty_flag-Distinct k es d.1,
    )
  ]

  pub clear_dirty_flag-IsCache :
      (k : Bytes) (c : Cache V)
      → IsCache c
      → IsCache (record c { entries = clear_dirty_flag k c.entries })
  clear_dirty_flag-IsCache k c h = record {
    positive = h.positive;
    bounded = omega (arith, h.bounded, length-clear_dirty_flag k c.entries);
    distinct = clear_dirty_flag-Distinct k c.entries h.distinct;
  }
