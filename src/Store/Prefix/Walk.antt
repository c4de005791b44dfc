-- ===== src/Store/Prefix/Walk.antt =====
-- The loop of a caller over an iterator of store/prefix.go.
use punnet_sdk.Base.{
  ℕ, zero, suc, ◌+◌, ◌≤◌, ◌≡◌, refl, sym, ◌∙◌, ap, subst, Bool, true, false, [], ◌∷◌, ◌++◌, Option,
  none, some, length, get_elem?, if◌then◌else◌, arith, All, ok, Bool-cases, inl, inr,
}
use punnet_sdk.Base.Bytes.{Bytes, bytes_lt, bytes_eq, eq_iff, eq_refl}
use punnet_sdk.Base.Dict.{Dict, lookup, is_some, get_or}
use punnet_sdk.Store.Memory
use punnet_sdk.Store.Memory.{Memory, MemoryIterator, iterator, drain, from_start, before_end}
use punnet_sdk.Store.Memory.Range.{in_range, iterator-lookup, keys_of, IsOrdered, iterator_lem}
use punnet_sdk.Store.Memory.Drain.{in_bounds, drained, items_bound}
use punnet_sdk.Store.Prefix
use punnet_sdk.Store.Prefix.{
  PrefixStore, PrefixIterator, prefix_bound, has_prefix, prefix_key, prefix_iterator,
  prefixed_start, prefixed_end, stripped,
}
use punnet_sdk.Store.Prefix.Bound.{IsBytes}
use punnet_sdk.Store.Prefix.Keys.{eq_stripped, lt_stripped, starts, ends, in_range-prefixed}

-- While the iterator is valid, the caller takes its key with its value and goes on. Every round uses one
-- unit of fuel.
unfoldable pub walk : ℕ → PrefixIterator → Dict Bytes
walk zero it = []
walk (suc fuel) it =
    let rest = walk fuel (Prefix.next it) in
    if Prefix.valid it then (get_or [] (Prefix.key it), get_or [] (Prefix.value it)) ∷ rest else []

abbrev key_or : Bytes → Option (Bytes × Bytes) → Bytes
key_or k none = k
key_or k (some x) = x.0

module _ (p : Bytes) where
  abbrev strip_all : Dict Bytes → Dict Bytes
  strip_all [] = []
  strip_all ((k, v) ∷ m) = (stripped p k, v) ∷ strip_all m

  abbrev AllPrefixed : Dict Bytes → Type 0
  AllPrefixed = All (λ x. has_prefix p x.0 ≡ true)

  get_elem-prefixed :
      (m : Dict Bytes) (i : ℕ) (k v : Bytes)
      → AllPrefixed m
      → get_elem? m i ≡ some (k, v)
      → has_prefix p k ≡ true
  get_elem-prefixed [] i k v h e = cc
  get_elem-prefixed (x ∷ m) zero k v h e = subst (λ q. has_prefix p q ≡ true) (ap (key_or k) e) h.0
  get_elem-prefixed (x ∷ m) (suc i) k v h e = get_elem-prefixed m i k v h.1 e

  abbrev at : Dict Bytes → ℕ → MemoryIterator
  at m i = record { items = m; index = i; closed = false }

  -- The walk takes what a caller of the parent's iterator takes.
  walk-drain :
      (fuel i : ℕ) (m : Dict Bytes)
      → AllPrefixed m
      → walk fuel (record { parent = at m i; prefix = p; closed = false })
        ≡ strip_all (drain fuel (at m i))
  unfolding walk drain Prefix.valid Prefix.key Prefix.value Prefix.next Memory.valid Memory.next
      Memory.iterator_key Memory.iterator_value
  walk-drain zero i m h = refl
  walk-drain (suc fuel) i m h = go (get_elem? m i) refl (walk-drain fuel (i + 1) m h)
    where
      go :
          (o : Option (Bytes × Bytes))
          → get_elem? m i ≡ o
          → walk fuel (record { parent = at m (i + 1); prefix = p; closed = false })
            ≡ strip_all (drain fuel (at m (i + 1)))
          → walk (suc fuel) (record { parent = at m i; prefix = p; closed = false })
            ≡ strip_all (drain (suc fuel) (at m i))
      go none e ih = rw (in_bounds i m, e) refl
      go (some (k, v)) e ih =
          rw (in_bounds i m, e, get_elem-prefixed m i k v h e) (ap (λ l. (stripped p k, v) ∷ l) ih)

  lookup-strip_all :
      (j : Bytes) (m : Dict Bytes) → AllPrefixed m → lookup j (strip_all m) ≡ lookup (p ++ j) m
  unfolding lookup
  lookup-strip_all j [] h = refl
  lookup-strip_all j ((k, v) ∷ m) h = rw (eq_stripped p k j h.0, lookup-strip_all j m h.1) refl

  strip_all-below :
      (k : Bytes) (m : Dict Bytes)
      → has_prefix p k ≡ true
      → AllPrefixed m
      → All (λ j. bytes_lt j k ≡ false) (keys_of m)
      → All (λ j. bytes_lt j (stripped p k) ≡ false) (keys_of (strip_all m))
  strip_all-below k [] g h a = tt
  strip_all-below k ((j, v) ∷ m) g h a =
      (lt_stripped p j k h.0 g ∙ a.0, strip_all-below k m g h.1 a.1)

  strip_all-above :
      (k : Bytes) (m : Dict Bytes)
      → has_prefix p k ≡ true
      → AllPrefixed m
      → All (λ j. bytes_lt k j ≡ false) (keys_of m)
      → All (λ j. bytes_lt (stripped p k) j ≡ false) (keys_of (strip_all m))
  strip_all-above k [] g h a = tt
  strip_all-above k ((j, v) ∷ m) g h a =
      (lt_stripped p k j g h.0 ∙ a.0, strip_all-above k m g h.1 a.1)

  strip_all-IsOrdered :
      (reverse : Bool) (m : Dict Bytes)
      → AllPrefixed m
      → IsOrdered reverse (keys_of m)
      → IsOrdered reverse (keys_of (strip_all m))
  strip_all-IsOrdered true [] h a = tt
  strip_all-IsOrdered false [] h a = tt
  strip_all-IsOrdered true ((k, v) ∷ m) h a =
      (strip_all-above k m h.0 h.1 a.0, strip_all-IsOrdered true m h.1 a.1)
  strip_all-IsOrdered false ((k, v) ∷ m) h a =
      (strip_all-below k m h.0 h.1 a.0, strip_all-IsOrdered false m h.1 a.1)

-- What holds of every key that a map finds holds of all its keys, and the other way round.
All-found :
    (P : Bytes → Type 0) (m : Dict Bytes)
    → ((k : Bytes) → is_some (lookup k m) ≡ true → P k)
    → All (λ x. P x.0) m
unfolding lookup
All-found P [] h = tt
All-found P ((k, v) ∷ m) h =
    (h k (ground (arith, eq_refl k)), All-found P m (λ j f. h j (ground (arith, f))))

found_in :
    (P : Bytes → Type 0) (m : Dict Bytes) (k : Bytes)
    → All P (keys_of m)
    → is_some (lookup k m) ≡ true
    → P k
unfolding lookup
found_in P [] k h f = cc
found_in P ((j, v) ∷ m) k h f = elim (Bool-cases (bytes_eq j k)) [
  | inl t ↦ subst P ((eq_iff j k).0 t) h.0
  | inr t ↦ found_in P m k h.1 (ground (arith, f, t))
]

module _ (ps : PrefixStore) (bytes : All IsBytes (keys_of ps.parent)) (start end : Option Bytes)
    (reverse : Bool) where
  abbrev inner : MemoryIterator
  inner = iterator ps.parent (prefixed_start ps start) (prefixed_end ps end) reverse

  inner-prefixed : All (λ x. has_prefix ps.prefix x.0 ≡ true) inner.items
  inner-prefixed =
      All-found (λ k. has_prefix ps.prefix k ≡ true) inner.items
        (λ k f.
          let found =
            sym (
              ap is_some (
                iterator-lookup ps.parent (prefixed_start ps start) (prefixed_end ps end) reverse
                  k))
            ∙ f in
          in_range-prefixed ps start end k
            (found_in IsBytes ps.parent k bytes (ground (arith, found))) (ground (arith, found)))

  found_key :
      (j : Bytes) (o : Option Bytes)
      → lookup (prefix_key ps j) ps.parent ≡ o
      → (if in_range (prefixed_start ps start) (prefixed_end ps end) (prefix_key ps j)
          then o
          else none)
        ≡ (if in_range start end j then o else none)
  found_key j none e = ground arith
  found_key j (some v) e =
      rw
        (
          starts ps start j,
          ends ps end j (found_in IsBytes ps.parent (prefix_key ps j) bytes (rw (e) refl)),
        )
        refl

  walked :
      (fuel : ℕ)
      → length ps.parent ≤ fuel
      → walk fuel (record { parent = inner; prefix = ps.prefix; closed = false })
        ≡ strip_all ps.prefix inner.items
  unfolding iterator
  walked fuel h =
      walk-drain ps.prefix fuel 0 inner.items inner-prefixed
      ∙ ap (strip_all ps.prefix) (
          drained fuel ps.parent (prefixed_start ps start) (prefixed_end ps end) reverse (
            omega (
              arith,
              h,
              items_bound ps.parent (prefixed_start ps start) (prefixed_end ps end) reverse,
            )))

  -- On an open store over a parent whose keys are bytes, an iterator over a range, in either direction, is
  -- given. A caller that reads it until it is no longer valid, for which as many rounds as the parent has
  -- items are enough, has read the store's keys in the range, without the prefix, each with the value that
  -- the parent holds under the key with the prefix, and the keys are in ascending byte order, or in
  -- descending order for a reverse iterator.
  pub prefix_walk_lem :
      (fuel : ℕ) (j : Bytes)
      → ps.closed ≡ false
      → length ps.parent ≤ fuel
      → (it : PrefixIterator) × (prefix_iterator ps start end reverse ≡ ok it)
        × (lookup j (walk fuel it)
            ≡ (if in_range start end j then lookup (prefix_key ps j) ps.parent else none))
        × IsOrdered reverse (keys_of (walk fuel it))
  unfolding prefix_iterator
  prefix_walk_lem fuel j o h = rw (o) (
    record { parent = inner; prefix = ps.prefix; closed = false },
    refl,
    ap (lookup j) (walked fuel h)
        ∙ lookup-strip_all ps.prefix j inner.items inner-prefixed
        ∙ iterator-lookup ps.parent (prefixed_start ps start) (prefixed_end ps end) reverse
            (prefix_key ps j)
        ∙ found_key j (lookup (prefix_key ps j) ps.parent) refl,
    rw (walked fuel h) (
        strip_all-IsOrdered ps.prefix reverse inner.items inner-prefixed
          (iterator_lem ps.parent (prefixed_start ps start) (prefixed_end ps end) reverse j).1),
  )
