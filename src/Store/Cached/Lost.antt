-- ===== src/Store/Cached/Lost.antt =====
-- The writes of a cached store that are lost before a flush, and the flush that cannot succeed.
use punnet_sdk.Base.{
  ℕ, ◌≡◌, refl, sym, ◌∙◌, ap, Bool, true, false, List, [], ◌∷◌, Option, none, some, err,
  if◌then◌else◌, arith, Bool-cases, inl, inr, key_invalid,
}
use punnet_sdk.Base.Bytes.{Bytes, bytes_eq, bytes_lt, eq_iff, eq_refl}
use punnet_sdk.Base.Dict.{lookup, is_some, get_or}
use punnet_sdk.Store.Cache.{CacheEntry, Cache}
use punnet_sdk.Store.Cache.Lru.{victim, without, lookup-set, IsCache}
use punnet_sdk.Store.Levels
use punnet_sdk.Store.Levels.{get_dirty}
use punnet_sdk.Store.Memory
use punnet_sdk.Store.Memory.{Memory, insert_string, sort_strings, validate_key}
use punnet_sdk.Store.Memory.Range.{listed, listed-sort_strings}
use punnet_sdk.Store.Cached
use punnet_sdk.Store.Cached.{
  Serializer, CachedObjectStore, flush, flush_entry, flush_keys, clean_entry, dirty_entry, put,
  keys_of,
}
use punnet_sdk.Store.Cached.Calls.{passes}
use punnet_sdk.Store.Cached.Cleared.{dirty_only, unflushed, listed-keys_flushed}
use punnet_sdk.Store.Cached.Flush.{IsCodec}
use punnet_sdk.Store.Cached.View.{stored, cached, view, shown_or, IsStore, victim_cached}

-- The empty key sorts first.
none_below : (k : Bytes) → bytes_lt k [] ≡ false
unfolding bytes_lt
none_below [] = refl
none_below (x ∷ xs) = refl

insert_empty : (ks : List Bytes) → insert_string [] ks ≡ [] ∷ ks
unfolding insert_string
insert_empty [] = refl
insert_empty (k ∷ ks) = rw (none_below k) refl

sorted_first :
    (ks : List Bytes) → listed [] ks ≡ true → (js : List Bytes) × (sort_strings ks ≡ [] ∷ js)
unfolding listed sort_strings bytes_eq bytes_lt insert_string
sorted_first [] h = cc
sorted_first ([] ∷ ks) h = (sort_strings ks, insert_empty (sort_strings ks))
sorted_first ((b ∷ k) ∷ ks) h =
    let (js, e) = sorted_first ks h in (insert_string (b ∷ k) js, rw (e) refl)

not_cached :
    {A : Type 0} (b : Bool) (o : Option A) {x : A} → (if b then none else o) ≡ some x → b ≡ false
not_cached true o h = cc
not_cached false o h = refl

module _ {V : Type 0} where
  put_out :
      (k : Bytes) (c : Cache V) (h : IsCache c) (i : Bytes) (f : CacheEntry V)
      → victim k c ≡ some (i, f)
      → (x : CacheEntry V)
      → (if bytes_eq k i then some x else without (victim k c) i (lookup i c.entries)) ≡ none
  put_out k c h i f e x = elim (Bool-cases (bytes_eq k i)) [
    | inl t ↦ ground (
      arith,
      not_cached (is_some (lookup k c.entries)) _ e,
      ap (λ j. is_some (lookup j c.entries)) ((eq_iff k i).0 t),
      ap is_some (victim_cached k c i f h e),
    )
    | inr t ↦ rw (t, e) (ground (arith, eq_refl i))
  ]

  module _ (codec : Serializer V) (s : CachedObjectStore V) (h : IsStore codec s)
      (is_open : s.closed ≡ false) where
    -- A write to an open store that is well formed and that evicts an entry leaves that entry's key
    -- with the object that the backing store holds, whether the entry has been flushed or not.
    pub evicted_lem :
        (b : ℕ) (k i : Bytes) (v : V) (f : CacheEntry V)
        → victim (b ∷ k) s.cache.l1 ≡ some (i, f)
        → view codec (Cached.set s (b ∷ k) v).1 i ≡ stored codec s i
    unfolding Cached.set Levels.set
    evicted_lem b k i v f e = rw (passes s b k is_open) (
        ap (shown_or (stored codec s i)) (
          lookup-set s.cache.l1 h.l1_IsCache (b ∷ k) (dirty_entry v) i
          ∙ put_out (b ∷ k) s.cache.l1 h.l1_IsCache i f e (dirty_entry v)))

    module _ (zero_value : V) (c : IsCodec codec) where
      dirty_listed :
          (o : Option (CacheEntry V)) → unflushed o ≡ true → is_some (dirty_only o) ≡ true
      unfolding dirty_only
      dirty_listed none d = cc
      dirty_listed (some e) d = ground (arith, d)

      refused : (e : CacheEntry V) (m : Memory) → flush_entry codec [] e m ≡ (err key_invalid, m)
      unfolding flush_entry Memory.set Memory.delete validate_key
      refused e m = elim (Bool-cases e.deleted) [
        | inl t ↦ rw (t) refl
        | inr t ↦ rw (t, c.writes e.value) refl
      ]

      -- In an open store that is well formed, an entry of the empty key that is not flushed makes the
      -- flush fail, with a serializer that reads back what it writes: the error is the one of an invalid
      -- key, and neither the backing store nor the cache changes.
      pub flush_fails :
          unflushed (cached s []) ≡ true → flush zero_value codec s ≡ (err key_invalid, s)
      unfolding flush flush_keys
      flush_fails d =
          let (js, e) = sorted_first (keys_of (get_dirty s.cache)) (
            sym (listed-sort_strings [] (keys_of (get_dirty s.cache)))
            ∙ listed-keys_flushed codec s h []
            ∙ dirty_listed (cached s []) d) in
          rw
            (
              is_open,
              e,
              refused (get_or (clean_entry zero_value) (lookup [] (get_dirty s.cache))) s.backing,
            )
            refl
