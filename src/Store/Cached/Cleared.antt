-- ===== src/Store/Cached/Cleared.antt =====
-- The dirty entries of the caches, and the flags that a flush clears.
use punnet_sdk.Base.{
  ◌≡◌, refl, sym, ◌∙◌, ap, Bool, true, false, List, [], ◌∷◌, Option, none, some, ◌||◌,
  if◌then◌else◌, arith,
}
use punnet_sdk.Base.Bytes.{Bytes, bytes_eq, eq_iff}
use punnet_sdk.Base.Dict.{Dict, lookup, is_some, Distinct}
use punnet_sdk.Store.Cache.{CacheEntry, get_dirty_entries, clear_dirty_flag}
use punnet_sdk.Store.Cache.Lru.{
  IsCache, cleaned, clean_id, lookup-clear_dirty_flag, clear_dirty_flag-IsCache,
}
use punnet_sdk.Store.Levels.{MultiLevelCache, get_dirty, clear_dirty_flags, add_missing}
use punnet_sdk.Store.Memory.{sort_strings}
use punnet_sdk.Store.Memory.Range.{listed, listed-sort_strings}
use punnet_sdk.Store.Cached.{Serializer, CachedObjectStore, keys_of}
use punnet_sdk.Store.Cached.View.{cached, IsStore}

module _ {V : Type 0} where
  -- The entry, if it is dirty.
  unfoldable pub dirty_only : Option (CacheEntry V) → Option (CacheEntry V)
  dirty_only none = none
  dirty_only (some e) = if e.dirty then some e else none

  lookup-get_dirty_entries :
      (j : Bytes) (es : Dict (CacheEntry V))
      → Distinct es
      → lookup j (get_dirty_entries es) ≡ dirty_only (lookup j es)
  unfolding lookup get_dirty_entries dirty_only
  lookup-get_dirty_entries j [] d = refl
  lookup-get_dirty_entries j ((i, e) ∷ es) d =
      ground (arith, d.0, eq_iff i j, lookup-get_dirty_entries j es)

  listed-keys_of :
      (j : Bytes) (es : Dict (CacheEntry V)) → listed j (keys_of es) ≡ is_some (lookup j es)
  unfolding listed lookup
  listed-keys_of j [] = refl
  listed-keys_of j ((i, e) ∷ es) = ground (arith, listed-keys_of j es)

  cleaned_twice :
      (a b : Bool) (o : Option (CacheEntry V)) → cleaned a (cleaned b o) ≡ cleaned (b || a) o
  cleaned_twice a b none = refl
  cleaned_twice true true (some e) = refl
  cleaned_twice true false (some e) = refl
  cleaned_twice false true (some e) = refl
  cleaned_twice false false (some e) = refl

  still_empty : (k : Bytes) (es : Dict (CacheEntry V)) → es ≡ [] → clear_dirty_flag k es ≡ []
  unfolding clear_dirty_flag
  still_empty k es e = rw (e) refl

  -- The caches behind `ClearDirtyFlags`.
  pub record Cleared (ks : List Bytes) (before after : MultiLevelCache V) : Type 0 where
    pub l1_IsCache : IsCache after.l1
    pub l2_empty : after.l2.entries ≡ []
    pub entry :
        (j : Bytes) → lookup j after.l1.entries ≡ cleaned (listed j ks) (lookup j before.l1.entries)

  pub clear_dirty_flags-Cleared :
      (ks : List Bytes) (mc : MultiLevelCache V)
      → IsCache mc.l1
      → mc.l2.entries ≡ []
      → Cleared ks mc (clear_dirty_flags ks mc)
  unfolding clear_dirty_flags listed
  clear_dirty_flags-Cleared [] mc h e = record {
    l1_IsCache = h;
    l2_empty = e;
    entry = λ j. sym (clean_id (lookup j mc.l1.entries));
  }
  clear_dirty_flags-Cleared (k ∷ ks) mc h e =
      let next : MultiLevelCache V = record {
        l1 = record mc.l1 { entries = clear_dirty_flag k mc.l1.entries };
        l2 = record mc.l2 { entries = clear_dirty_flag k mc.l2.entries };
      } in
      let rest =
        clear_dirty_flags-Cleared ks next (clear_dirty_flag-IsCache k mc.l1 h)
          (still_empty k mc.l2.entries e) in
      record {
        l1_IsCache = rest.l1_IsCache;
        l2_empty = rest.l2_empty;
        entry = λ j.
            rest.entry j
            ∙ ap (cleaned (listed j ks)) (lookup-clear_dirty_flag k j mc.l1.entries)
            ∙ cleaned_twice (listed j ks) (bytes_eq k j) (lookup j mc.l1.entries);
      }

  -- An entry that is not flushed.
  abbrev pub unflushed : Option (CacheEntry V) → Bool
  unflushed none = false
  unflushed (some e) = e.dirty

  abbrev pub keys_flushed : CachedObjectStore V → List Bytes
  keys_flushed s = sort_strings (keys_of (get_dirty s.cache))

  module _ (codec : Serializer V) (s : CachedObjectStore V) (h : IsStore codec s) where
    dirty_l1 : get_dirty s.cache ≡ get_dirty_entries s.cache.l1.entries
    unfolding get_dirty get_dirty_entries add_missing
    dirty_l1 = rw (h.l2_empty) refl

    pub entry_flushed : (j : Bytes) → lookup j (get_dirty s.cache) ≡ dirty_only (cached s j)
    entry_flushed j =
        ap (lookup j) dirty_l1 ∙ lookup-get_dirty_entries j s.cache.l1.entries h.l1_IsCache.distinct

    pub listed-keys_flushed :
        (j : Bytes) → listed j (keys_flushed s) ≡ is_some (dirty_only (cached s j))
    listed-keys_flushed j =
        listed-sort_strings j (keys_of (get_dirty s.cache))
        ∙ listed-keys_of j (get_dirty s.cache)
        ∙ ap is_some (entry_flushed j)
