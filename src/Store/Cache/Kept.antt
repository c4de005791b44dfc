-- ===== src/Store/Cache/Kept.antt =====
-- What the calls of the cache of store/cache.go keep: its bound, and the order of use.
use punnet_sdk.Base.{
  ℕ, zero, suc, ◌≡◌, refl, List, [], ◌∷◌, Option, none, some, length, ltb, arith, Bool-cases, inl,
  inr,
}
use punnet_sdk.Base.Bytes.{Bytes, eq_refl}
use punnet_sdk.Base.Dict.{lookup, remove, is_some, remove-Distinct}
use punnet_sdk.Store.Cache
use punnet_sdk.Store.Cache.{
  Cache, CacheEntry, drop_last, evict_lru, get_found, clear_dirty_flag, new_cache,
}
use punnet_sdk.Store.Cache.Entries.{length-remove}
use punnet_sdk.Store.Cache.Lru.{
  IsCache, set-IsCache, get-IsCache, clear_dirty_flag-IsCache, is_some-none,
}
use punnet_sdk.Store.Cache.Recency.{
  CacheCall, get_entry, set_entry, delete_entry, clear_entries, clear_flag, after, run, ByAge,
  remove-ByAge, drop_last-ByAge, clear_dirty_flag-ByAge, Unused-ByAge, front-ByAge, absent, removed,
  never,
}

new-ByAge : (V : Type 0) (n : ℕ) → ByAge [] (new_cache {V = V} n).entries
unfolding new_cache
new-ByAge V zero = tt
new-ByAge V (suc n) = tt

module _ {V : Type 0} where
  after-IsCache : (call : CacheCall V) (c : Cache V) → IsCache c → IsCache (after call c)
  unfolding Cache.delete Cache.clear
  after-IsCache (get_entry k) c h = get-IsCache c h k
  after-IsCache (set_entry k e) c h = set-IsCache c h k e
  after-IsCache (delete_entry k) c h = record {
    positive = h.positive;
    bounded = omega (arith, h.bounded, length-remove k c.entries);
    distinct = remove-Distinct k c.entries h.distinct;
  }
  after-IsCache clear_entries c h = record {
    positive = h.positive;
    bounded = omega (arith, h.positive);
    distinct = tt;
  }
  after-IsCache (clear_flag k) c h = clear_dirty_flag-IsCache k c h

  set-ByAge :
      (calls : List (CacheCall V)) (k : Bytes) (e : CacheEntry V) (c : Cache V)
      → ByAge calls c.entries
      → ByAge (set_entry k e ∷ calls) (Cache.set k e c).entries
  unfolding Cache.set evict_lru
  set-ByAge calls k e c h = elim (Bool-cases (is_some (lookup k c.entries))) [
    | inl found ↦ rw (found) (
        front-ByAge (set_entry k e) calls k e (remove k c.entries) (eq_refl k) (removed k c.entries)
          (remove-ByAge calls k c.entries h))
    | inr missing ↦
        let pushed =
          front-ByAge (set_entry k e) calls k e c.entries (eq_refl k)
            (absent k c.entries (is_some-none (lookup k c.entries) missing)) h in
        elim (Bool-cases (ltb c.capacity (suc (length c.entries)))) [
          | inl over ↦
              rw (missing, over)
                (drop_last-ByAge (set_entry k e ∷ calls) ((k, e) ∷ c.entries) pushed)
          | inr fits ↦ rw (missing, fits) pushed
        ]
  ]

  get-ByAge :
      (calls : List (CacheCall V)) (k : Bytes) (c : Cache V)
      → ByAge calls c.entries
      → ByAge (get_entry k ∷ calls) (Cache.get k c).1.entries
  unfolding Cache.get
  get-ByAge calls k c h = go (lookup k c.entries) refl
    where
      go :
          (o : Option (CacheEntry V))
          → lookup k c.entries ≡ o
          → ByAge (get_entry k ∷ calls) (get_found k c o).1.entries
      go none e = Unused-ByAge (get_entry k) calls c.entries (absent k c.entries e) h
      go (some x) e =
          front-ByAge (get_entry k) calls k x (remove k c.entries) (eq_refl k) (removed k c.entries)
            (remove-ByAge calls k c.entries h)

  after-ByAge :
      (call : CacheCall V) (calls : List (CacheCall V)) (c : Cache V)
      → ByAge calls c.entries
      → ByAge (call ∷ calls) (after call c).entries
  unfolding Cache.delete Cache.clear
  after-ByAge (get_entry k) calls c h = get-ByAge calls k c h
  after-ByAge (set_entry k e) calls c h = set-ByAge calls k e c h
  after-ByAge (delete_entry k) calls c h =
      Unused-ByAge (delete_entry k) calls (remove k c.entries)
        (never (delete_entry k) (remove k c.entries) (λ j. refl)) (remove-ByAge calls k c.entries h)
  after-ByAge clear_entries calls c h = tt
  after-ByAge (clear_flag k) calls c h =
      Unused-ByAge (clear_flag k) calls (clear_dirty_flag k c.entries)
        (never (clear_flag k) (clear_dirty_flag k c.entries) (λ j. refl))
        (clear_dirty_flag-ByAge calls k c.entries h)

  new-IsCache : (n : ℕ) → IsCache (new_cache {V = V} n)
  unfolding new_cache
  new-IsCache zero = record { positive = omega arith; bounded = omega arith; distinct = tt }
  new-IsCache (suc n) = record { positive = omega arith; bounded = omega arith; distinct = tt }

  -- The cache behind any calls is well formed, and its entries stand in the order of their use.
  pub run_lem :
      (calls : List (CacheCall V)) (n : ℕ)
      → IsCache (run calls (new_cache n)) × ByAge calls (run calls (new_cache n)).entries
  unfolding run
  run_lem [] n = (new-IsCache n, new-ByAge V n)
  run_lem (call ∷ calls) n =
      let h = run_lem calls n in
      (
        after-IsCache call (run calls (new_cache n)) h.0,
        after-ByAge call calls (run calls (new_cache n)) h.1,
      )
