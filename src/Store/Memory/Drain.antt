-- ===== src/Store/Memory/Drain.antt =====
-- The loop of a caller over an iterator of the memory store.
use punnet_sdk.Base.{
  ℕ, zero, suc, ◌+◌, ◌≤◌, ◌≡◌, ◌∙◌, refl, sym, ap, Bool, true, false, List, [], ◌∷◌, Option, none,
  some, length, get_elem?, ltb, if◌then◌else◌, arith, length-append,
}
use punnet_sdk.Base.Bytes.{Bytes}
use punnet_sdk.Base.Dict.{Dict, get_or, is_some, lookup}
use punnet_sdk.Store.Memory.Range.{in_range, IsOrdered, keys_of, iterator_lem}
use punnet_sdk.Store.Memory.{
  keys_in, insert_string, sort_strings, reversed, items_for, Memory, drain, valid, next, iterator,
  iterator_key, iterator_value, item_key, item_value,
}

-- The items from the index on.
abbrev pub from_index : ℕ → Dict Bytes → Dict Bytes
from_index zero m = m
from_index (suc i) [] = []
from_index (suc i) (x ∷ m) = from_index i m

abbrev opened : ℕ → Dict Bytes → Option (Bytes × Bytes) → Dict Bytes
opened i m none = []
opened i m (some x) = x ∷ from_index (suc i) m

from_index-opened : (i : ℕ) (m : Dict Bytes) → from_index i m ≡ opened i m (get_elem? m i)
from_index-opened zero [] = refl
from_index-opened zero (x ∷ m) = refl
from_index-opened (suc i) [] = refl
from_index-opened (suc i) (x ∷ m) = from_index-opened i m ∙ step (get_elem? m i)
  where
    step : (o : Option (Bytes × Bytes)) → opened i m o ≡ opened (suc i) (x ∷ m) o
    step none = refl
    step (some y) = refl

pub in_bounds : (i : ℕ) (m : Dict Bytes) → ltb i (length m) ≡ is_some (get_elem? m i)
in_bounds zero [] = refl
in_bounds zero (x ∷ m) = ground arith
in_bounds (suc i) [] = ground arith
in_bounds (suc i) (x ∷ m) = ground (arith, in_bounds i m)

past_end : (i : ℕ) (m : Dict Bytes) → length m ≤ i → from_index i m ≡ []
past_end zero [] h = refl
past_end zero (x ∷ m) h = ground (arith, h)
past_end (suc i) [] h = refl
past_end (suc i) (x ∷ m) h = past_end i m (omega (arith, h))

abbrev collected : Dict Bytes → Option (Bytes × Bytes) → Dict Bytes
collected rest none = []
collected rest (some x) = x ∷ rest

round :
    (b : Bool) (o : Option (Bytes × Bytes)) (rest : Dict Bytes)
    → b ≡ is_some o
    → (if b
        then (
          get_or [] (if b then item_key o else none),
          get_or [] (if b then item_value o else none),
        )
          ∷ rest
        else [])
      ≡ collected rest o
round true none rest h = cc
round true (some (k, v)) rest h = refl
round false none rest h = refl
round false (some (k, v)) rest h = cc

same :
    (i : ℕ) (m : Dict Bytes) (o : Option (Bytes × Bytes))
    → collected (from_index (suc i) m) o ≡ opened i m o
same i m none = refl
same i m (some x) = refl

plus_one : (i : ℕ) → i + 1 ≡ suc i
plus_one i = omega arith

drain-items :
    (fuel i : ℕ) (m : Dict Bytes)
    → length m ≤ i + fuel
    → drain fuel (record { items = m; index = i; closed = false }) ≡ from_index i m
unfolding drain valid next iterator_key iterator_value
drain-items zero i m h = sym (past_end i m (omega (arith, h)))
drain-items (suc fuel) i m h =
    round (ltb i (length m)) (get_elem? m i)
      (drain fuel (record { items = m; index = i + 1; closed = false })) (in_bounds i m)
    ∙ ap (λ rest. collected rest (get_elem? m i)) (drain-items fuel (i + 1) m (omega (arith, h)))
    ∙ ap (λ j. collected (from_index j m) (get_elem? m i)) (plus_one i)
    ∙ same i m (get_elem? m i)
    ∙ sym (from_index-opened i m)

length-keys_in : (start end : Option Bytes) (m : Memory) → length (keys_in start end m) ≤ length m
unfolding keys_in
length-keys_in start end [] = omega arith
length-keys_in start end ((k, v) ∷ m) = ground (arith, length-keys_in start end m)

length-insert_string : (k : Bytes) (ks : List Bytes) → length (insert_string k ks) ≡ suc (length ks)
unfolding insert_string
length-insert_string k [] = refl
length-insert_string k (j ∷ ks) = ground (arith, length-insert_string k ks)

length-sort_strings : (ks : List Bytes) → length (sort_strings ks) ≡ length ks
unfolding sort_strings
length-sort_strings [] = refl
length-sort_strings (k ∷ ks) =
    ground (arith, length-insert_string k (sort_strings ks), length-sort_strings ks)

length-reversed : (ks : List Bytes) → length (reversed ks) ≡ length ks
unfolding reversed
length-reversed [] = refl
length-reversed (k ∷ ks) = omega (arith, length-append (reversed ks) (k ∷ []), length-reversed ks)

length-items_for : (m : Memory) (ks : List Bytes) → length (items_for m ks) ≡ length ks
unfolding items_for
length-items_for m [] = refl
length-items_for m (k ∷ ks) = omega (arith, length-items_for m ks)

-- An iterator has no more items than the map.
pub items_bound :
    (m : Memory) (start end : Option Bytes) (reverse : Bool)
    → length (iterator m start end reverse).items ≤ length m
unfolding iterator
items_bound m start end true =
    let ks = sort_strings (keys_in start end m) in
    omega (
      arith,
      length-items_for m (reversed ks),
      length-reversed ks,
      length-sort_strings (keys_in start end m),
      length-keys_in start end m,
    )
items_bound m start end false =
    let ks = sort_strings (keys_in start end m) in
    omega (
      arith,
      length-items_for m ks,
      length-sort_strings (keys_in start end m),
      length-keys_in start end m,
    )

pub drained :
    (fuel : ℕ) (m : Memory) (start end : Option Bytes) (reverse : Bool)
    → length (iterator m start end reverse).items ≤ fuel
    → drain fuel (iterator m start end reverse) ≡ (iterator m start end reverse).items
unfolding iterator
drained fuel m start end reverse h =
    drain-items fuel 0 (iterator m start end reverse).items (omega (arith, h))

-- A caller that reads an iterator until it is no longer valid, for which as many rounds as the map
-- has items are enough, has read the items of the map whose keys lie in the range, with their keys
-- in ascending byte order, or in descending order for a reverse iterator.
pub drain_lem :
    (fuel : ℕ) (m : Memory) (start end : Option Bytes) (reverse : Bool) (k : Bytes)
    → length m ≤ fuel
    → (lookup k (drain fuel (iterator m start end reverse))
        ≡ (if in_range start end k then lookup k m else none))
      × IsOrdered reverse (keys_of (drain fuel (iterator m start end reverse)))
drain_lem fuel m start end reverse k h =
    rw (drained fuel m start end reverse (omega (arith, h, items_bound m start end reverse)))
      (iterator_lem m start end reverse k)
