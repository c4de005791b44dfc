-- ===== src/Store/Cache.antt =====
-- store/cache.go: the LRU cache. The list of the entries, the most recently used one first, stands for
-- the linked list and for the map from its keys to its elements.
pub mod Entries
pub mod Lru
pub mod Recency
pub mod Kept
pub mod Oldest
use punnet_sdk.Base.{
  ℕ, zero, suc, Bool, true, false, not, ◌&&◌, List, [], ◌∷◌, ◌++◌, Option, none, some, length, ltb,
  if◌then◌else◌, add_u64,
}
use punnet_sdk.Base.Bytes.{Bytes, bytes_eq}
use punnet_sdk.Base.Dict.{Dict, lookup, remove, is_some}

pub record CacheEntry (V : Type 0) : Type 0 where
  pub value : V
  pub dirty : Bool
  pub deleted : Bool

pub record Cache (V : Type 0) : Type 0 where
  pub capacity : ℕ
  pub entries : Dict (CacheEntry V)
  pub hits : ℕ
  pub misses : ℕ

-- The last element of the list is taken out.
unfoldable pub drop_last {ℓ} : {A : Type ℓ} → List A → List A
drop_last [] = []
drop_last (x ∷ []) = []
drop_last (x ∷ y ∷ xs) = x ∷ drop_last (y ∷ xs)

module _ {V : Type 0} where
  -- A capacity that is not positive is the capacity 0 here.
  unfoldable pub new_cache : ℕ → Cache V
  new_cache zero = record { capacity = 1; entries = []; hits = 0; misses = 0 }
  new_cache (suc n) = record { capacity = suc n; entries = []; hits = 0; misses = 0 }

  -- The element with the key, which holds `e`, moves to the front.
  abbrev pub to_front : Bytes → CacheEntry V → Dict (CacheEntry V) → Dict (CacheEntry V)
  to_front k e es = (k, e) ∷ remove k es

  abbrev pub get_found : Bytes → Cache V → Option (CacheEntry V) → Option (CacheEntry V) × Cache V
  get_found k c none = (none, record c { misses = add_u64 c.misses 1 })
  get_found k c (some e) =
      (some e, record c { entries = to_front k e c.entries; hits = add_u64 c.hits 1 })

  unfoldable pub get : Bytes → Cache V → Option (CacheEntry V) × Cache V
  get k c = get_found k c (lookup k c.entries)

  unfoldable pub evict_lru : Cache V → Cache V
  unfolding drop_last
  evict_lru c = record c { entries = drop_last c.entries }

  unfoldable pub set : Bytes → CacheEntry V → Cache V → Cache V
  unfolding evict_lru
  set k e c =
      if is_some (lookup k c.entries)
      then record c { entries = to_front k e c.entries }
      else let pushed = record c { entries = (k, e) ∷ c.entries } in
        if ltb c.capacity (length pushed.entries) then evict_lru pushed else pushed

  unfoldable pub delete : Bytes → Cache V → Cache V
  delete k c = record c { entries = remove k c.entries }

  unfoldable pub has : Bytes → Cache V → Bool
  has k c = is_some (lookup k c.entries)

  unfoldable pub clear : Cache V → Cache V
  clear c = record c { entries = [] }

  unfoldable pub get_dirty_entries : Dict (CacheEntry V) → Dict (CacheEntry V)
  get_dirty_entries [] = []
  get_dirty_entries ((k, e) ∷ es) =
      let rest = get_dirty_entries es in if e.dirty then (k, e) ∷ rest else rest

  -- The entry with the key is changed where it stands.
  unfoldable pub clear_dirty_flag : Bytes → Dict (CacheEntry V) → Dict (CacheEntry V)
  clear_dirty_flag k [] = []
  clear_dirty_flag k ((j, e) ∷ es) =
      let rest = clear_dirty_flag k es in
      if bytes_eq j k then (j, record e { dirty = false }) ∷ es else (j, e) ∷ rest
