-- ===== src/Store/Levels.antt =====
-- store/cache.go: `MultiLevelCache`, of two LRU caches.
use punnet_sdk.Base.{ℕ, List, [], ◌∷◌, Option, none, some, if◌then◌else◌}
use punnet_sdk.Base.Bytes.{Bytes}
use punnet_sdk.Base.Dict.{Dict, lookup, insert, is_some}
use punnet_sdk.Store.Cache
use punnet_sdk.Store.Cache.{Cache, CacheEntry, new_cache, get_dirty_entries, clear_dirty_flag}

pub data CacheLevel : Type 0 where
  l1_cache l2_cache l3_cache : CacheLevel

pub record MultiLevelCache (V : Type 0) : Type 0 where
  pub l1 : Cache V
  pub l2 : Cache V

module _ {V : Type 0} where
  unfoldable pub new_multi_level_cache : ℕ → ℕ → MultiLevelCache V
  new_multi_level_cache l1_size l2_size = record { l1 = new_cache l1_size; l2 = new_cache l2_size }

  -- The two steps of `Get`: an entry of the second level is stored in the first one too.
  abbrev pub ask_l2 :
      Bytes
      → Cache V
      → Option (CacheEntry V) × Cache V
      → (Option (CacheEntry V) × CacheLevel) × MultiLevelCache V
  ask_l2 k l1 (some e, l2) = ((some e, l2_cache), record { l1 = Cache.set k e l1; l2 = l2 })
  ask_l2 k l1 (none, l2) = ((none, l3_cache), record { l1 = l1; l2 = l2 })

  abbrev pub ask_l1 :
      Bytes
      → MultiLevelCache V
      → Option (CacheEntry V) × Cache V
      → (Option (CacheEntry V) × CacheLevel) × MultiLevelCache V
  ask_l1 k mc (some e, l1) = ((some e, l1_cache), record mc { l1 = l1 })
  ask_l1 k mc (none, l1) = ask_l2 k l1 (Cache.get k mc.l2)

  unfoldable pub get :
      Bytes → MultiLevelCache V → (Option (CacheEntry V) × CacheLevel) × MultiLevelCache V
  get k mc = ask_l1 k mc (Cache.get k mc.l1)

  unfoldable pub set : Bytes → CacheEntry V → MultiLevelCache V → MultiLevelCache V
  set k e mc = record mc { l1 = Cache.set k e mc.l1 }

  unfoldable pub delete : Bytes → MultiLevelCache V → MultiLevelCache V
  delete k mc = record { l1 = Cache.delete k mc.l1; l2 = Cache.delete k mc.l2 }

  unfoldable pub clear : MultiLevelCache V → MultiLevelCache V
  clear mc = record { l1 = Cache.clear mc.l1; l2 = Cache.clear mc.l2 }

  -- The entries of the second map whose keys the first one has not.
  unfoldable pub add_missing : Dict (CacheEntry V) → Dict (CacheEntry V) → Dict (CacheEntry V)
  add_missing dirty [] = dirty
  add_missing dirty ((k, e) ∷ es) =
      add_missing (if is_some (lookup k dirty) then dirty else insert k e dirty) es

  unfoldable pub get_dirty : MultiLevelCache V → Dict (CacheEntry V)
  unfolding add_missing
  get_dirty mc = add_missing (get_dirty_entries mc.l1.entries) (get_dirty_entries mc.l2.entries)

  unfoldable pub clear_dirty_flags : List Bytes → MultiLevelCache V → MultiLevelCache V
  clear_dirty_flags [] mc = mc
  clear_dirty_flags (k ∷ ks) mc = clear_dirty_flags ks (record {
    l1 = record mc.l1 { entries = clear_dirty_flag k mc.l1.entries };
    l2 = record mc.l2 { entries = clear_dirty_flag k mc.l2.entries };
  })
