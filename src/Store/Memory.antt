-- ===== src/Store/Memory.antt =====
-- store/memory_store.go: the backing store in memory and its iterators, and `validateKey` of
-- store/store.go. A nil bound of a range is `none`.
pub mod Drain
pub mod Range
use punnet_sdk.Base.{
  ℕ, zero, suc, ◌+◌, Bool, true, false, not, ◌&&◌, ◌==◌, List, [], ◌∷◌, ◌++◌, Option, none, some,
  Outcome, ok, err, length, get_elem?, ltb, if◌then◌else◌, fail_if, ◌>>=◌, ◌>>◌, key_invalid,
  key_not_found, iterator_closed,
}
use punnet_sdk.Base.Bytes.{Bytes, bytes_eq, bytes_lt}
use punnet_sdk.Base.Dict.{Dict, lookup, insert, remove, is_some, get_or}

unfoldable pub validate_key : Bytes → Outcome (Unit {0})
validate_key k = fail_if (length k == 0) key_invalid

-- `MemoryStore`: its map.
abbrev pub Memory : Type 0
Memory = Dict Bytes

abbrev pub found : Option Bytes → Outcome Bytes
found none = err key_not_found
found (some v) = ok v

unfoldable pub get : Memory → Bytes → Outcome Bytes
unfolding validate_key
get m k = do validate_key k; found (lookup k m)

-- A write that its first check refuses leaves the map.
abbrev pub checked : Outcome (Unit {0}) → Memory → Memory → Outcome (Unit {0}) × Memory
checked (ok _) m n = (ok tt, n)
checked (err e) m n = (err e, m)

unfoldable pub set : Memory → Bytes → Bytes → Outcome (Unit {0}) × Memory
unfolding validate_key
set m k v = checked (validate_key k) m (insert k v m)

unfoldable pub delete : Memory → Bytes → Outcome (Unit {0}) × Memory
unfolding validate_key
delete m k = checked (validate_key k) m (remove k m)

unfoldable pub has : Memory → Bytes → Outcome Bool
unfolding validate_key
has m k = do validate_key k; ok (is_some (lookup k m))

-- The checks of a key against the two bounds of a range.
abbrev pub from_start : Option Bytes → Bytes → Bool
from_start none k = true
from_start (some start) k = not (bytes_lt k start)

abbrev pub before_end : Option Bytes → Bytes → Bool
before_end none k = true
before_end (some end) k = bytes_lt k end

-- The loop that collects the keys of the range.
unfoldable pub keys_in : Option Bytes → Option Bytes → Memory → List Bytes
keys_in start end [] = []
keys_in start end ((k, v) ∷ m) =
    let rest = keys_in start end m in
    if not (from_start start k) then rest else if not (before_end end k) then rest else k ∷ rest

-- `sort.Strings`
unfoldable pub insert_string : Bytes → List Bytes → List Bytes
insert_string k [] = k ∷ []
insert_string k (j ∷ js) = if bytes_lt j k then j ∷ insert_string k js else k ∷ j ∷ js

unfoldable pub sort_strings : List Bytes → List Bytes
unfolding insert_string
sort_strings [] = []
sort_strings (k ∷ ks) = insert_string k (sort_strings ks)

-- The loop that swaps the two ends.
unfoldable pub reversed {ℓ} : {A : Type ℓ} → List A → List A
reversed [] = []
reversed (x ∷ xs) = reversed xs ++ x ∷ []

-- The items of an iterator, which are copied from the map.
unfoldable pub items_for : Memory → List Bytes → Dict Bytes
items_for m [] = []
items_for m (k ∷ ks) = (k, get_or [] (lookup k m)) ∷ items_for m ks

pub record MemoryIterator : Type 0 where
  pub items : Dict Bytes
  pub index : ℕ
  pub closed : Bool

unfoldable pub iterator : Memory → Option Bytes → Option Bytes → Bool → MemoryIterator
unfolding keys_in sort_strings reversed items_for
iterator m start end reverse =
    let keys = sort_strings (keys_in start end m) in
    record {
      items = items_for m (if reverse then reversed keys else keys);
      index = 0;
      closed = false;
    }

unfoldable pub valid : MemoryIterator → Bool
valid it = if it.closed then false else ltb it.index (length it.items)

unfoldable pub next : MemoryIterator → MemoryIterator
next it = if it.closed then it else record it { index = it.index + 1 }

-- `Key` and `Value`; `none` is nil.
abbrev pub item_key : Option (Bytes × Bytes) → Option Bytes
item_key none = none
item_key (some (k, v)) = some k

abbrev pub item_value : Option (Bytes × Bytes) → Option Bytes
item_value none = none
item_value (some (k, v)) = some v

unfoldable pub iterator_key : MemoryIterator → Option Bytes
unfolding valid
iterator_key it = if valid it then item_key (get_elem? it.items it.index) else none

unfoldable pub iterator_value : MemoryIterator → Option Bytes
unfolding valid
iterator_value it = if valid it then item_value (get_elem? it.items it.index) else none

unfoldable pub close_iterator : MemoryIterator → MemoryIterator
close_iterator it = if it.closed then it else record { items = []; index = it.index; closed = true }

-- The loop that a caller runs while the iterator is valid: its keys with its values. Every round
-- uses one unit of fuel.
unfoldable pub drain : ℕ → MemoryIterator → Dict Bytes
unfolding valid next iterator_key iterator_value
drain zero it = []
drain (suc fuel) it =
    let rest = drain fuel (next it) in
    if valid it then (get_or [] (iterator_key it), get_or [] (iterator_value it)) ∷ rest else []
