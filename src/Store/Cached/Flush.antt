-- ===== src/Store/Cached/Flush.antt =====
-- The flush of a cached store.
use punnet_sdk.Base.{
  ℕ, ◌≡◌, refl, sym, ◌∙◌, ap, Bool, true, false, List, [], ◌∷◌, Option, none, some, ok, ◌||◌,
  if◌then◌else◌, arith, Bool-cases, inl, inr,
}
use punnet_sdk.Base.Bytes.{Bytes, bytes_eq, eq_iff}
use punnet_sdk.Base.Dict.{
  Dict, lookup, is_some, get_or, insert, remove, lookup-insert, lookup-remove,
}
use punnet_sdk.Store.Cache.{CacheEntry}
use punnet_sdk.Store.Cache.Lru.{cleaned}
use punnet_sdk.Store.Levels.{get_dirty, clear_dirty_flags}
use punnet_sdk.Store.Memory.{Memory, validate_key, sort_strings}
use punnet_sdk.Store.Memory
use punnet_sdk.Store.Memory.Range.{listed}
use punnet_sdk.Store.Cached.{
  Serializer, CachedObjectStore, clean_entry, flush_entry, flush_keys, flush, then_write,
}
use punnet_sdk.Store.Cached.Cleared.{
  dirty_only, unflushed, keys_flushed, listed-keys_flushed, entry_flushed,
  clear_dirty_flags-Cleared,
}
use punnet_sdk.Store.Cached.View.{shown, known, decoded, stored, cached, shown_or, view, IsStore}

-- The serializer writes every object, and reads what it has written back.
pub record IsCodec {V : Type 0} (codec : Serializer V) : Type 0 where
  pub written : V → Bytes
  pub writes : (v : V) → codec.marshal v ≡ ok (written v)
  pub reads : (v : V) → codec.unmarshal (written v) ≡ ok v

not_empty : (b : ℕ) (k : Bytes) → validate_key (b ∷ k) ≡ ok tt
unfolding validate_key
not_empty b k = ground arith

module _ {V : Type 0} where
  -- The store `t` shows the objects of `s` and is well formed; the backing store holds them all, and
  -- no entry is left to flush.
  abbrev pub Flushes : Serializer V → CachedObjectStore V → CachedObjectStore V → Bytes → Type 0
  Flushes codec s t j =
      IsStore codec t
      × (view codec t j ≡ view codec s j)
      × (stored codec t j ≡ view codec s j)
      × (unflushed (cached t j) ≡ false)

  split_decoded :
      (codec : Serializer V) (b : Bool) (o p : Option Bytes) {v : Option V}
      → decoded codec o ≡ v
      → decoded codec (if b then o else p) ≡ (if b then v else decoded codec p)
  split_decoded codec true o p h = h
  split_decoded codec false o p h = refl

  module _ (codec : Serializer V) (c : IsCodec codec) where
    flush_entry-written :
        (b : ℕ) (k : Bytes) (e : CacheEntry V) (m : Memory)
        → (n : Memory) × (flush_entry codec (b ∷ k) e m ≡ (ok tt, n))
          × ((j : Bytes)
              → decoded codec (lookup j n)
                ≡ (if bytes_eq (b ∷ k) j then shown e else decoded codec (lookup j m)))
    unfolding flush_entry Memory.set Memory.delete
    flush_entry-written b k e m = elim (Bool-cases e.deleted) [
      | inl t ↦
          rw (t, not_empty b k)
            (
              remove (b ∷ k) m,
              refl,
              λ j.
                  ap (decoded codec) (lookup-remove (b ∷ k) j m)
                  ∙ split_decoded codec (bytes_eq (b ∷ k) j) none (lookup j m) refl,
            )
      | inr t ↦
          rw (t, c.writes e.value, not_empty b k)
            (
              insert (b ∷ k) (c.written e.value) m,
              refl,
              λ j.
                  ap (decoded codec) (lookup-insert (b ∷ k) j (c.written e.value) m)
                  ∙ split_decoded codec (bytes_eq (b ∷ k) j) (some (c.written e.value)) (lookup j m)
                      (ap known (c.reads e.value)),
            )
    ]

    -- The entry that the loop writes for a key.
    abbrev entry_for : V → Dict (CacheEntry V) → Bytes → CacheEntry V
    entry_for zero_value dirty k = get_or (clean_entry zero_value) (lookup k dirty)

    last_written :
        (k j : Bytes) (b : Bool) (f : Bytes → Option V) (o : Option V)
        → (if b then f j else if bytes_eq k j then f k else o)
          ≡ (if bytes_eq k j || b then f j else o)
    last_written k j b f o = elim (Bool-cases (bytes_eq k j)) [
      | inl t ↦ rw (t, (eq_iff k j).0 t) (both b (f j))
      | inr t ↦ rw (t) refl
    ]
      where
        both : (b : Bool) (x : Option V) → (if b then x else x) ≡ x
        both true x = refl
        both false x = refl

    flush_keys-written :
        (zero_value : V) (dirty : Dict (CacheEntry V)) (ks : List Bytes) (m : Memory)
        → listed [] ks ≡ false
        → (n : Memory) × (flush_keys zero_value codec dirty ks m ≡ (ok tt, n))
          × ((j : Bytes)
              → decoded codec (lookup j n) ≡ (
                  if listed j ks
                  then shown (entry_for zero_value dirty j)
                  else decoded codec (lookup j m)))
    unfolding flush_keys listed bytes_eq
    flush_keys-written zero_value dirty [] m h = (m, refl, λ j. refl)
    flush_keys-written zero_value dirty ([] ∷ ks) m h = cc
    flush_keys-written zero_value dirty ((b ∷ k) ∷ ks) m h =
        let (n1, e1, w1) = flush_entry-written b k (entry_for zero_value dirty (b ∷ k)) m in
        let (n2, e2, w2) = flush_keys-written zero_value dirty ks n1 h in
        (
          n2,
          ap (λ r. then_write r (flush_keys zero_value codec dirty ks)) e1 ∙ e2,
          λ j.
              w2 j
              ∙ ap (λ o. if listed j ks then shown (entry_for zero_value dirty j) else o) (w1 j)
              ∙ last_written (b ∷ k) j (listed j ks) (λ i. shown (entry_for zero_value dirty i))
                  (decoded codec (lookup j m)),
        )

    module _ (zero_value : V) (s : CachedObjectStore V) (h : IsStore codec s) where
      -- What the backing store holds behind the loop: the store's objects.
      held :
          (j : Bytes) (o : Option (CacheEntry V))
          → cached s j ≡ o
          → (if is_some (dirty_only o)
              then shown (get_or (clean_entry zero_value) (dirty_only o))
              else stored codec s j)
            ≡ shown_or (stored codec s j) o
      unfolding dirty_only
      held j none e = refl
      held j (some x) e = elim (Bool-cases x.dirty) [
        | inl t ↦ rw (t) refl
        | inr t ↦ rw (t) (sym (h.agrees j x e t))
      ]

      choice :
          (j : Bytes) {b b' : Bool} {o o' : Option (CacheEntry V)}
          → b ≡ b'
          → o ≡ o'
          → (if b then shown (get_or (clean_entry zero_value) o) else stored codec s j)
            ≡ (if b' then shown (get_or (clean_entry zero_value) o') else stored codec s j)
      choice j p q = rw (p, q) refl

      shown_cleaned :
          (b : Bool) (o : Option (CacheEntry V)) (p : Option V)
          → shown_or p (cleaned b o) ≡ shown_or p o
      shown_cleaned b none p = refl
      shown_cleaned true (some e) p = refl
      shown_cleaned false (some e) p = refl

      shown_twice :
          (p : Option V) (o : Option (CacheEntry V)) → shown_or (shown_or p o) o ≡ shown_or p o
      shown_twice p none = refl
      shown_twice p (some e) = refl

      all_cleaned :
          (o : Option (CacheEntry V)) → unflushed (cleaned (is_some (dirty_only o)) o) ≡ false
      unfolding dirty_only
      all_cleaned none = refl
      all_cleaned (some e) = elim (Bool-cases e.dirty) [ inl t ↦ rw (t) refl | inr t ↦ rw (t) refl ]

      flushed_store :
          (n : Memory) (j : Bytes)
          → ((i : Bytes) → decoded codec (lookup i n) ≡ view codec s i)
          → Flushes codec s
              (record {
                cache = clear_dirty_flags (keys_flushed s) s.cache;
                backing = n;
                closed = s.closed;
              })
              j
      flushed_store n j holds =
          let mc = clear_dirty_flags (keys_flushed s) s.cache in
          let cleared =
            clear_dirty_flags-Cleared (keys_flushed s) s.cache h.l1_IsCache h.l2_empty in
          let entry : (i : Bytes)
              → lookup i mc.l1.entries ≡ cleaned (is_some (dirty_only (cached s i))) (cached s i) =
            λ i.
              cleared.entry i
              ∙ ap (λ b. cleaned b (cached s i)) (listed-keys_flushed codec s h i) in
          let same : (i : Bytes)
              → shown_or (decoded codec (lookup i n)) (lookup i mc.l1.entries) ≡ view codec s i =
            λ i.
              ap (shown_or (decoded codec (lookup i n))) (entry i)
              ∙ shown_cleaned (is_some (dirty_only (cached s i))) (cached s i)
                  (decoded codec (lookup i n))
              ∙ ap (λ p. shown_or p (cached s i)) (holds i)
              ∙ shown_twice (stored codec s i) (cached s i) in
          (
            record {
              l1_IsCache = cleared.l1_IsCache;
              l2_empty = cleared.l2_empty;
              agrees = λ i e c d.
                  ap (shown_or (decoded codec (lookup i n))) (sym c) ∙ same i ∙ sym (holds i);
            },
            same j,
            holds j,
            ap unflushed (entry j) ∙ all_cleaned (cached s j),
          )

      flush_written :
          (n : Memory)
          → s.closed ≡ false
          → flush_keys zero_value codec (get_dirty s.cache) (keys_flushed s) s.backing ≡ (ok tt, n)
          → flush zero_value codec s ≡ (
            ok tt,
            record {
              cache = clear_dirty_flags (keys_flushed s) s.cache;
              backing = n;
              closed = s.closed;
            },
          )
      unfolding flush
      flush_written n is_open e = rw (is_open, e) refl

      -- Without an entry of the empty key, the flush of an open store succeeds, with a serializer that
      -- reads back what it writes: the store keeps its objects and is well formed, the backing store
      -- holds every one of them, and no entry is left to flush.
      pub flush_lem :
          (j : Bytes)
          → s.closed ≡ false
          → cached s [] ≡ none
          → ((flush zero_value codec s).0 ≡ ok tt) × Flushes codec s (flush zero_value codec s).1 j
      unfolding dirty_only
      flush_lem j is_open no_empty =
          let (n, e, w) =
            flush_keys-written zero_value (get_dirty s.cache) (keys_flushed s) s.backing
              (listed-keys_flushed codec s h [] ∙ ap (λ o. is_some (dirty_only o)) no_empty) in
          rw (flush_written n is_open e) (
            refl,
            flushed_store n j (λ i.
                w i
                ∙ choice i (listed-keys_flushed codec s h i) (entry_flushed codec s h i)
                ∙ held i (cached s i) refl),
          )
