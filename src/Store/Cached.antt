-- ===== src/Store/Cached.antt =====
-- store/cached_store.go: `CachedObjectStore`, over the memory store. The serializer, and the zero value
-- of the type of the objects, are parameters.
pub mod View
pub mod Calls
pub mod Cleared
pub mod Flush
pub mod Lost
use punnet_sdk.Base.{
  ℕ, Bool, true, false, not, List, [], ◌∷◌, Option, none, some, Outcome, ok, err, if◌then◌else◌,
  fail_if, ◌>>=◌, ◌>>◌, store_closed, key_not_found,
}
use punnet_sdk.Base.Bytes.{Bytes}
use punnet_sdk.Base.Dict.{Dict, lookup, insert, get_or, is_some}
use punnet_sdk.Store.Cache.{Cache, CacheEntry}
use punnet_sdk.Store.Levels
use punnet_sdk.Store.Levels.{
  MultiLevelCache, CacheLevel, new_multi_level_cache, get_dirty, clear_dirty_flags,
}
use punnet_sdk.Store.Memory
use punnet_sdk.Store.Memory.{
  Memory, MemoryIterator, validate_key, sort_strings, iterator, iterator_value, iterator_key,
  close_iterator,
}

pub record Serializer (V : Type 0) : Type 0 where
  pub marshal : V → Outcome Bytes
  pub unmarshal : Bytes → Outcome V

pub record CachedObjectStore (V : Type 0) : Type 0 where
  pub cache : MultiLevelCache V
  pub backing : Memory
  pub closed : Bool

-- The loop of `Flush`: it stops at the first error, with what it has written.
abbrev pub then_write :
    Outcome (Unit {0}) × Memory
    → (Memory → Outcome (Unit {0}) × Memory)
    → Outcome (Unit {0}) × Memory
then_write (ok _, m) f = f m
then_write (err e, m) f = (err e, m)

-- The value of a call, and the store behind it.
abbrev pub Call : Type 0 → Type 0 → Type 0
Call V A = Outcome A × CachedObjectStore V

module _ {V : Type 0} where
  unfoldable pub new_cached_object_store : Memory → ℕ → ℕ → CachedObjectStore V
  new_cached_object_store backing l1_size l2_size = record {
    cache = new_multi_level_cache l1_size l2_size;
    backing = backing;
    closed = false;
  }

  unfoldable pub checks : CachedObjectStore V → Bytes → Outcome (Unit {0})
  checks s k = do fail_if s.closed store_closed; validate_key k

  -- The rest of a call behind its checks.
  abbrev pub behind {ℓ} :
      {A : Type ℓ}
      → CachedObjectStore V
      → Outcome (Unit {0})
      → Outcome A × CachedObjectStore V
      → Outcome A × CachedObjectStore V
  behind s (ok _) r = r
  behind s (err e) r = (err e, s)

  abbrev pub clean_entry : V → CacheEntry V
  clean_entry v = record { value = v; dirty = false; deleted = false }

  abbrev pub dirty_entry : V → CacheEntry V
  dirty_entry v = record { value = v; dirty = true; deleted = false }

  abbrev pub put : Bytes → CacheEntry V → CachedObjectStore V → CachedObjectStore V
  put k e s = record s { cache = Levels.set k e s.cache }

  unfoldable pub set : CachedObjectStore V → Bytes → V → Call V (Unit {0})
  unfolding checks
  set s k v = behind s (checks s k) (ok tt, put k (dirty_entry v) s)

  abbrev pub ask_has :
      Bytes
      → CachedObjectStore V
      → (Option (CacheEntry V) × CacheLevel) × MultiLevelCache V
      → Call V Bool
  ask_has k s ((some e, _), mc) = (ok (not e.deleted), record s { cache = mc })
  ask_has k s ((none, _), mc) = (Memory.has s.backing k, record s { cache = mc })

  unfoldable pub has : CachedObjectStore V → Bytes → Call V Bool
  unfolding checks
  has s k = behind s (checks s k) (ask_has k s (Levels.get k s.cache))

  -- The loop of `GetBatch`: a key that `Get` refuses is left out.
  abbrev pub collect : Bytes → Outcome V → Dict V → Dict V
  collect k (ok v) result = insert k v result
  collect k (err e) result = result

  -- The loop of `SetBatch`, which does not check the keys.
  unfoldable pub put_items : Dict V → CachedObjectStore V → CachedObjectStore V
  put_items [] s = s
  put_items ((k, v) ∷ items) s = put_items items (put k (dirty_entry v) s)

  unfoldable pub set_batch : CachedObjectStore V → Dict V → Call V (Unit {0})
  unfolding put_items
  set_batch s items = if s.closed then (err store_closed, s) else (ok tt, put_items items s)

  abbrev pub keys_of : Dict (CacheEntry V) → List Bytes
  keys_of [] = []
  keys_of ((k, e) ∷ es) = k ∷ keys_of es

  abbrev pub flushed :
      CachedObjectStore V → List Bytes → Outcome (Unit {0}) × Memory → Call V (Unit {0})
  flushed s ks (ok _, m) =
      (ok tt, record { cache = clear_dirty_flags ks s.cache; backing = m; closed = s.closed })
  flushed s ks (err e, m) = (err e, record s { backing = m })

  unfoldable pub close : CachedObjectStore V → Call V (Unit {0})
  close s =
      if s.closed
      then (ok tt, s)
      else (ok tt, record { cache = Levels.clear s.cache; backing = s.backing; closed = true })

  -- `Iterator`, and `ReverseIterator` for `reverse`: over the backing store.
  unfoldable pub object_iterator :
      CachedObjectStore V → Option Bytes → Option Bytes → Bool → Outcome MemoryIterator
  object_iterator s start end reverse = do
    fail_if s.closed store_closed
    ok (iterator s.backing start end reverse)

module _ {V : Type 0} (serializer : Serializer V) where
  -- The cache miss: the object is loaded, and stored in the cache.
  abbrev pub loaded : Bytes → CachedObjectStore V → Outcome V → Call V V
  loaded k s (ok v) = (ok v, put k (clean_entry v) s)
  loaded k s (err e) = (err e, s)

  abbrev pub load : Bytes → CachedObjectStore V → Outcome Bytes → Call V V
  load k s (ok d) = loaded k s (serializer.unmarshal d)
  load k s (err e) = (err key_not_found, s)

  abbrev pub ask :
      Bytes
      → CachedObjectStore V
      → (Option (CacheEntry V) × CacheLevel) × MultiLevelCache V
      → Call V V
  ask k s ((some e, _), mc) =
      (if e.deleted then err key_not_found else ok e.value, record s { cache = mc })
  ask k s ((none, _), mc) = load k (record s { cache = mc }) (Memory.get s.backing k)

  unfoldable pub get : CachedObjectStore V → Bytes → Call V V
  unfolding checks
  get s k = behind s (checks s k) (ask k s (Levels.get k s.cache))

  unfoldable pub get_batch_keys :
      CachedObjectStore V → List Bytes → Dict V → Dict V × CachedObjectStore V
  unfolding get
  get_batch_keys s [] result = (result, s)
  get_batch_keys s (k ∷ ks) result =
      let (r, s') = get s k in get_batch_keys s' ks (collect k r result)

  unfoldable pub get_batch : CachedObjectStore V → List Bytes → Call V (Dict V)
  unfolding get_batch_keys
  get_batch s ks =
      if s.closed
      then (err store_closed, s)
      else let (result, s') = get_batch_keys s ks [] in (ok result, s')

  abbrev pub store_data : Bytes → Memory → Outcome Bytes → Outcome (Unit {0}) × Memory
  store_data k m (ok d) = Memory.set m k d
  store_data k m (err e) = (err e, m)

  -- One round of the loop of `Flush`.
  unfoldable pub flush_entry : Bytes → CacheEntry V → Memory → Outcome (Unit {0}) × Memory
  flush_entry k e m =
      if e.deleted then Memory.delete m k else store_data k m (serializer.marshal e.value)

module _ {V : Type 0} (zero_value : V) where
  abbrev pub deleted_entry : CacheEntry V
  deleted_entry = record { value = zero_value; dirty = true; deleted = true }

  unfoldable pub delete : CachedObjectStore V → Bytes → Call V (Unit {0})
  unfolding checks
  delete s k = behind s (checks s k) (ok tt, put k deleted_entry s)

  -- The loop of `DeleteBatch`, which leaves out the keys that are not valid.
  abbrev pub delete_valid : Bytes → Outcome (Unit {0}) → CachedObjectStore V → CachedObjectStore V
  delete_valid k (ok _) s = put k deleted_entry s
  delete_valid k (err e) s = s

  unfoldable pub delete_keys : List Bytes → CachedObjectStore V → CachedObjectStore V
  delete_keys [] s = s
  delete_keys (k ∷ ks) s = delete_keys ks (delete_valid k (validate_key k) s)

  unfoldable pub delete_batch : CachedObjectStore V → List Bytes → Call V (Unit {0})
  unfolding delete_keys
  delete_batch s ks = if s.closed then (err store_closed, s) else (ok tt, delete_keys ks s)

module _ {V : Type 0} (zero_value : V) (serializer : Serializer V) where
  unfoldable pub flush_keys :
      Dict (CacheEntry V) → List Bytes → Memory → Outcome (Unit {0}) × Memory
  unfolding flush_entry
  flush_keys dirty [] m = (ok tt, m)
  flush_keys dirty (k ∷ ks) m =
      then_write (flush_entry serializer k (get_or (clean_entry zero_value) (lookup k dirty)) m)
        (λ m'. flush_keys dirty ks m')

  unfoldable pub flush : CachedObjectStore V → Call V (Unit {0})
  unfolding flush_keys
  flush s =
      let dirty = get_dirty s.cache in
      let ks = sort_strings (keys_of dirty) in
      if s.closed then (err store_closed, s) else flushed s ks (flush_keys dirty ks s.backing)
