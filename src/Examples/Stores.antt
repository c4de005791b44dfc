-- ===== src/Examples/Stores.antt =====
-- A cached store of numbers with one cached entry, and a store of a prefix.
use punnet_sdk.Base.{
  ℕ, ◌≤◌, ◌≡◌, refl, sym, ap, Bool, true, false, ◌&&◌, All, List, [], ◌∷◌, Option, none, some,
  Outcome, ok, err, arith, if◌then◌else◌, value_invalid, key_invalid,
}
use punnet_sdk.Base.Bytes.{Bytes, codes, bytes_eq}
use punnet_sdk.Base.Dict.{lookup}
use punnet_sdk.Store.Cache
use punnet_sdk.Store.Cache.{Cache, CacheEntry, new_cache}
use punnet_sdk.Store.Cache.Lru.{IsCache}
use punnet_sdk.Store.Cache.Recency.{CacheCall, get_entry, set_entry, run, is_oldest}
use punnet_sdk.Store.Cache.Oldest.{evicts, evicts_oldest}
use punnet_sdk.Store.Objects.{found}
use punnet_sdk.Store.Memory.{Memory, drain, iterator}
use punnet_sdk.Store.Memory.Range.{in_range, IsOrdered, keys_of}
use punnet_sdk.Store.Memory.Drain.{drain_lem}
use punnet_sdk.Store.Prefix
use punnet_sdk.Store.Prefix.{PrefixStore, PrefixIterator, has_prefix, prefix_iterator}
use punnet_sdk.Store.Prefix.Bound.{IsBytes}
use punnet_sdk.Store.Prefix.Walk.{walk, prefix_walk_lem}
use punnet_sdk.Store.Prefix.Isolated.{prefix_set_lem}
use punnet_sdk.Store.Cached
use punnet_sdk.Store.Cached.{Serializer, CachedObjectStore, flush}
use punnet_sdk.Store.Cached.View.{IsStore, view, stored}
use punnet_sdk.Store.Cached.Calls.{Readable, cached_calls_lem}
use punnet_sdk.Store.Cached.Cleared.{unflushed}
use punnet_sdk.Store.Cached.Flush.{IsCodec, Flushes, flush_lem}
use punnet_sdk.Store.Cached.Lost.{evicted_lem, flush_fails}

abbrev read_number : Bytes → Outcome ℕ
read_number (n ∷ []) = ok n
read_number _ = err value_invalid

-- A number is written as the list of itself.
abbrev numbers : Serializer ℕ
numbers = record { marshal = λ n. ok (n ∷ []); unmarshal = read_number }

numbers-IsCodec : IsCodec numbers
numbers-IsCodec = record { written = λ n. n ∷ []; writes = λ n. refl; reads = λ n. refl }

abbrev entry : ℕ → CacheEntry ℕ
entry n = record { value = n; dirty = true; deleted = false }

-- A cache with room for `room` entries that holds one, which is not flushed.
abbrev one : ℕ → Bytes → ℕ → Cache ℕ
one room k n = record { capacity = room; entries = (k, entry n) ∷ []; hits = 0; misses = 0 }

abbrev shelf : Memory
shelf = (codes "a", 5 ∷ []) ∷ (codes "b", 6 ∷ []) ∷ []

abbrev store : ℕ → Bytes → CachedObjectStore ℕ
store room k = record {
  cache = record {
    l1 = one room k 7;
    l2 = record { capacity = 1; entries = []; hits = 0; misses = 0 };
  };
  backing = shelf;
  closed = false;
}

one-IsCache : (room : ℕ) (k : Bytes) (n : ℕ) → 1 ≤ room → IsCache (one room k n)
unfolding lookup
one-IsCache room k n h = record {
  positive = omega (arith, h);
  bounded = omega (arith, h);
  distinct = (refl, tt);
}

store-IsStore : (room : ℕ) (k : Bytes) → 1 ≤ room → IsStore numbers (store room k)
unfolding lookup
store-IsStore room k h = record {
  l1_IsCache = one-IsCache room k 7 h;
  l2_empty = refl;
  agrees = λ j e c d. only_dirty (bytes_eq k j) e c d;
}
  where
    only_dirty :
        (b : Bool) (e : CacheEntry ℕ) {x y : Option ℕ}
        → (if b then some (entry 7) else none) ≡ some e
        → e.dirty ≡ false
        → x ≡ y
    only_dirty true e c d = let t = ap unflushed c in cc
    only_dirty false e c d = cc

abbrev read_of : Option Bytes → Outcome ℕ
read_of none = err value_invalid
read_of (some d) = read_number d

shelf-Readable : Readable numbers shelf
unfolding lookup
shelf-Readable k d e = choose (bytes_eq (codes "a") k) (bytes_eq (codes "b") k) e
  where
    choose :
        (b c : Bool)
        → (if b then some (5 ∷ []) else if c then some (6 ∷ []) else none) ≡ some d
        → (v : ℕ) × (read_number d ≡ ok v)
    choose true c p = (5, sym (ap read_of p))
    choose false true p = (6, sym (ap read_of p))
    choose false false p = cc

cached_calls_lem_example :
    (((Cached.get numbers (store 2 (codes "a")) (codes "b")).0
        ≡ found (view numbers (store 2 (codes "a")) (codes "b")))
      × IsStore numbers (Cached.get numbers (store 2 (codes "a")) (codes "b")).1
      × (view numbers (Cached.get numbers (store 2 (codes "a")) (codes "b")).1 (codes "a")
          ≡ view numbers (store 2 (codes "a")) (codes "a")))
    × (((Cached.set (store 2 (codes "a")) (codes "b") 8).0 ≡ ok tt)
        × IsStore numbers (Cached.set (store 2 (codes "a")) (codes "b") 8).1
        × (view numbers (Cached.set (store 2 (codes "a")) (codes "b") 8).1 (codes "a") ≡ (
            if bytes_eq (codes "b") (codes "a")
            then some 8
            else view numbers (store 2 (codes "a")) (codes "a"))))
    × (((Cached.delete 0 (store 2 (codes "a")) (codes "b")).0 ≡ ok tt)
        × IsStore numbers (Cached.delete 0 (store 2 (codes "a")) (codes "b")).1
        × (view numbers (Cached.delete 0 (store 2 (codes "a")) (codes "b")).1 (codes "a") ≡ (
            if bytes_eq (codes "b") (codes "a")
            then none
            else view numbers (store 2 (codes "a")) (codes "a"))))
unfolding lookup bytes_eq
cached_calls_lem_example =
    cached_calls_lem numbers (store 2 (codes "a")) (store-IsStore 2 (codes "a") (omega arith)) refl
      0 98 [] 8 (codes "a") shelf-Readable refl

-- Of two entries the one set first has been read since, so that the other one is evicted.
abbrev used : List (CacheCall ℕ)
used =
    get_entry (codes "a") ∷ set_entry (codes "b") (entry 8) ∷ set_entry (codes "a") (entry 7) ∷ []

evicts_oldest_example :
    IsCache (Cache.set (codes "c") (entry 9) (run used (new_cache 2)))
    × (lookup (codes "b") (Cache.set (codes "c") (entry 9) (run used (new_cache 2))).entries ≡ (
        if bytes_eq (codes "c") (codes "b")
        then some (entry 9)
        else if evicts (codes "c") (run used (new_cache 2))
            && is_oldest used (codes "b") (run used (new_cache 2)).entries
        then none
        else lookup (codes "b") (run used (new_cache 2)).entries))
evicts_oldest_example = evicts_oldest used 2 (codes "c") (entry 9) (codes "b")

flush_lem_example :
    ((flush 0 numbers (store 2 (codes "a"))).0 ≡ ok tt)
    × Flushes numbers (store 2 (codes "a")) (flush 0 numbers (store 2 (codes "a"))).1 (codes "a")
unfolding lookup bytes_eq
flush_lem_example =
    flush_lem numbers numbers-IsCodec 0 (store 2 (codes "a"))
      (store-IsStore 2 (codes "a") (omega arith)) (codes "a") refl refl

flush_fails_example : flush 0 numbers (store 2 []) ≡ (err key_invalid, store 2 [])
unfolding lookup bytes_eq
flush_fails_example =
    flush_fails numbers (store 2 []) (store-IsStore 2 [] (omega arith)) refl 0 numbers-IsCodec refl

evicted_lem_example :
    view numbers (Cached.set (store 1 (codes "a")) (codes "b") 8).1 (codes "a")
    ≡ stored numbers (store 1 (codes "a")) (codes "a")
unfolding lookup bytes_eq
evicted_lem_example =
    evicted_lem numbers (store 1 (codes "a")) (store-IsStore 1 (codes "a") (omega arith)) refl 98 []
      (codes "a") 8 (entry 7) refl

drain_lem_example :
    (lookup (codes "b") (drain 2 (iterator shelf none (some (codes "c")) true))
      ≡ (if in_range none (some (codes "c")) (codes "b") then lookup (codes "b") shelf else none))
    × IsOrdered true (keys_of (drain 2 (iterator shelf none (some (codes "c")) true)))
drain_lem_example = drain_lem 2 shelf none (some (codes "c")) true (codes "b") (omega arith)

abbrev corner : PrefixStore
corner = record { parent = shelf; prefix = codes "b"; closed = false }

shelf-IsBytes : All IsBytes (keys_of shelf)
shelf-IsBytes = ((omega arith, tt), ((omega arith, tt), tt))

prefix_walk_lem_example :
    (it : PrefixIterator) × (prefix_iterator corner none (some (codes "z")) true ≡ ok it)
    × (lookup [] (walk 3 it)
        ≡ (if in_range none (some (codes "z")) [] then lookup (codes "b") shelf else none))
    × IsOrdered true (keys_of (walk 3 it))
prefix_walk_lem_example =
    prefix_walk_lem corner shelf-IsBytes none (some (codes "z")) true 3 [] refl (omega arith)

prefix_set_lem_example :
    ((Prefix.set corner (codes "x") (9 ∷ [])).0 ≡ ok tt)
    × (Prefix.get (Prefix.set corner (codes "x") (9 ∷ [])).1 (codes "x")
        ≡ (if bytes_eq (codes "x") (codes "x") then ok (9 ∷ []) else Prefix.get corner (codes "x")))
    × (lookup (codes "a") (Prefix.set corner (codes "x") (9 ∷ [])).1.parent
        ≡ lookup (codes "a") shelf)
unfolding has_prefix
prefix_set_lem_example = prefix_set_lem corner refl 120 [] (9 ∷ []) (codes "x") (codes "a") refl
