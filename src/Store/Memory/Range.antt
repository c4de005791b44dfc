-- ===== src/Store/Memory/Range.antt =====
-- The iterators of the memory store: which items they give, and in which order.
use punnet_sdk.Base.{
  ◌≡◌, ◌∙◌, refl, sym, ap, subst, Bool, true, false, ◌&&◌, ◌||◌, List, [], ◌∷◌, ◌++◌, Option, none,
  some, if◌then◌else◌, arith, All, Bool-cases, inl, inr,
}
use punnet_sdk.Base.Bytes.{Bytes, bytes_eq, bytes_lt, eq_iff, lt_irrefl, lt_trans, lt_total}
use punnet_sdk.Base.Dict.{Dict, lookup, is_some, get_or}
use punnet_sdk.Store.Memory.{
  Memory, from_start, before_end, keys_in, insert_string, sort_strings, reversed, items_for,
  iterator,
}

unfoldable pub listed : Bytes → List Bytes → Bool
listed k [] = false
listed k (j ∷ js) = bytes_eq j k || listed k js

abbrev pub in_range : Option Bytes → Option Bytes → Bytes → Bool
in_range start end k = from_start start k && before_end end k

listed-insert_string :
    (k j : Bytes) (ks : List Bytes) → listed k (insert_string j ks) ≡ (bytes_eq j k || listed k ks)
unfolding listed insert_string
listed-insert_string k j [] = refl
listed-insert_string k j (i ∷ ks) = ground (arith, listed-insert_string k j ks)

pub listed-sort_strings : (k : Bytes) (ks : List Bytes) → listed k (sort_strings ks) ≡ listed k ks
unfolding listed sort_strings
listed-sort_strings k [] = refl
listed-sort_strings k (j ∷ ks) =
    ground (arith, listed-insert_string k j (sort_strings ks), listed-sort_strings k ks)

pub listed-append :
    (k : Bytes) (ks js : List Bytes) → listed k (ks ++ js) ≡ (listed k ks || listed k js)
unfolding listed
listed-append k [] js = refl
listed-append k (i ∷ ks) js = ground (arith, listed-append k ks js)

listed-reversed : (k : Bytes) (ks : List Bytes) → listed k (reversed ks) ≡ listed k ks
unfolding listed reversed
listed-reversed k [] = refl
listed-reversed k (j ∷ ks) =
    ground (arith, listed-append k (reversed ks) (j ∷ []), listed-reversed k ks)

listed-keys_in :
    (start end : Option Bytes) (k : Bytes) (m : Memory)
    → listed k (keys_in start end m) ≡ (in_range start end k && is_some (lookup k m))
unfolding listed keys_in lookup
listed-keys_in start end k [] = ground arith
listed-keys_in start end k ((j, v) ∷ m) = ground (arith, eq_iff j k, listed-keys_in start end k m)

lookup-items_for :
    (k : Bytes) (m : Memory) (ks : List Bytes)
    → lookup k (items_for m ks) ≡ (if listed k ks then some (get_or [] (lookup k m)) else none)
unfolding listed items_for lookup
lookup-items_for k m [] = refl
lookup-items_for k m (j ∷ ks) = ground (arith, eq_iff j k, lookup-items_for k m ks)

kept :
    (b : Bool) (o : Option Bytes)
    → (if b && is_some o then some (get_or [] o) else none) ≡ (if b then o else none)
kept b none = ground arith
kept b (some v) = ground arith

-- No later key is below an earlier one; none is above it.
abbrev pub IsAscending : List Bytes → Type 0
IsAscending [] = Unit
IsAscending (k ∷ ks) = All (λ j. bytes_lt j k ≡ false) ks × IsAscending ks

abbrev pub IsDescending : List Bytes → Type 0
IsDescending [] = Unit
IsDescending (k ∷ ks) = All (λ j. bytes_lt k j ≡ false) ks × IsDescending ks

lt_asym : (a b : Bytes) → bytes_lt a b ≡ true → bytes_lt b a ≡ false
lt_asym a b h = ground (arith, lt_trans a b a, lt_irrefl a)

not_below_trans :
    (a b c : Bytes) → bytes_lt b a ≡ false → bytes_lt c b ≡ false → bytes_lt c a ≡ false
not_below_trans a b c h k = ground (
  arith,
  lt_total a b,
  lt_total b c,
  lt_trans c a b,
  lt_asym a b,
  lt_trans a b c,
  lt_trans c b a,
  eq_iff a b,
  lt_trans b c a,
  lt_irrefl c,
  lt_asym c a,
)

All-insert_string :
    (P : Bytes → Type 0) (k : Bytes) (ks : List Bytes) → P k → All P ks → All P (insert_string k ks)
unfolding insert_string
All-insert_string P k [] p ps = (p, tt)
All-insert_string P k (j ∷ ks) p ps = elim (Bool-cases (bytes_lt j k)) [
  | inl t ↦ rw (t) (ps.0, All-insert_string P k ks p ps.1)
  | inr t ↦ rw (t) (p, ps)
]

All-not_below :
    (k j : Bytes) (ks : List Bytes)
    → bytes_lt j k ≡ false
    → All (λ i. bytes_lt i j ≡ false) ks
    → All (λ i. bytes_lt i k ≡ false) ks
All-not_below k j [] h p = tt
All-not_below k j (i ∷ ks) h p = (not_below_trans k j i h p.0, All-not_below k j ks h p.1)

insert_string-IsAscending :
    (k : Bytes) (ks : List Bytes) → IsAscending ks → IsAscending (insert_string k ks)
unfolding insert_string
insert_string-IsAscending k [] p = (tt, tt)
insert_string-IsAscending k (j ∷ ks) p = elim (Bool-cases (bytes_lt j k)) [
  | inl t ↦ rw (t) (
    All-insert_string (λ i. bytes_lt i j ≡ false) k ks (lt_asym j k t) p.0,
    insert_string-IsAscending k ks p.1,
  )
  | inr t ↦ rw (t) ((t, All-not_below k j ks t p.0), p)
]

pub sort_strings-IsAscending : (ks : List Bytes) → IsAscending (sort_strings ks)
unfolding sort_strings
sort_strings-IsAscending [] = tt
sort_strings-IsAscending (k ∷ ks) =
    insert_string-IsAscending k (sort_strings ks) (sort_strings-IsAscending ks)

append-IsDescending :
    (ks : List Bytes) (k : Bytes)
    → All (λ j. bytes_lt j k ≡ false) ks
    → IsDescending ks
    → IsDescending (ks ++ k ∷ [])
append-IsDescending [] k h p = (tt, tt)
append-IsDescending (j ∷ ks) k h p =
    (All-append_one j k ks p.0 h.0, append-IsDescending ks k h.1 p.1)
  where
    All-append_one :
        (j k : Bytes) (ks : List Bytes)
        → All (λ i. bytes_lt j i ≡ false) ks
        → bytes_lt j k ≡ false
        → All (λ i. bytes_lt j i ≡ false) (ks ++ k ∷ [])
    All-append_one j k [] a b = (b, tt)
    All-append_one j k (i ∷ ks) a b = (a.0, All-append_one j k ks a.1 b)

All-reversed : (P : Bytes → Type 0) (ks : List Bytes) → All P ks → All P (reversed ks)
unfolding reversed
All-reversed P [] p = tt
All-reversed P (k ∷ ks) p = add P k (reversed ks) (All-reversed P ks p.1) p.0
  where
    add : (P : Bytes → Type 0) (k : Bytes) (js : List Bytes) → All P js → P k → All P (js ++ k ∷ [])
    add P k [] a b = (b, tt)
    add P k (j ∷ js) a b = (a.0, add P k js a.1 b)

reversed-IsDescending : (ks : List Bytes) → IsAscending ks → IsDescending (reversed ks)
unfolding reversed
reversed-IsDescending [] p = tt
reversed-IsDescending (k ∷ ks) p =
    append-IsDescending (reversed ks) k (All-reversed (λ j. bytes_lt j k ≡ false) ks p.0)
      (reversed-IsDescending ks p.1)

-- The keys of a map, in the order of its list.
abbrev pub keys_of : Dict Bytes → List Bytes
keys_of [] = []
keys_of ((k, v) ∷ m) = k ∷ keys_of m

keys_of-items_for : (m : Memory) (ks : List Bytes) → keys_of (items_for m ks) ≡ ks
unfolding items_for
keys_of-items_for m [] = refl
keys_of-items_for m (k ∷ ks) = ap (λ js. k ∷ js) (keys_of-items_for m ks)

chosen :
    (reverse : Bool) (k : Bytes) (ks : List Bytes)
    → listed k (if reverse then reversed ks else ks) ≡ listed k ks
chosen true k ks = listed-reversed k ks
chosen false k ks = refl

-- An iterator stands on its first item, and its items are those of the map whose keys lie in the
-- range, with their values.
pub iterator-lookup :
    (m : Memory) (start end : Option Bytes) (reverse : Bool) (k : Bytes)
    → lookup k (iterator m start end reverse).items
      ≡ (if in_range start end k then lookup k m else none)
unfolding iterator
iterator-lookup m start end reverse k =
    let ks = sort_strings (keys_in start end m) in
    lookup-items_for k m (if reverse then reversed ks else ks)
    ∙ ap (λ b. if b then some (get_or [] (lookup k m)) else none)
        (chosen reverse k ks
          ∙ listed-sort_strings k (keys_in start end m)
          ∙ listed-keys_in start end k m)
    ∙ kept (in_range start end k) (lookup k m)

abbrev pub IsOrdered : Bool → List Bytes → Type 0
IsOrdered true ks = IsDescending ks
IsOrdered false ks = IsAscending ks

pub iterator-IsOrdered :
    (m : Memory) (start end : Option Bytes) (reverse : Bool)
    → IsOrdered reverse (keys_of (iterator m start end reverse).items)
unfolding iterator
iterator-IsOrdered m start end true =
    let ks = sort_strings (keys_in start end m) in
    subst IsDescending (sym (keys_of-items_for m (reversed ks)))
      (reversed-IsDescending ks (sort_strings-IsAscending (keys_in start end m)))
iterator-IsOrdered m start end false =
    let ks = sort_strings (keys_in start end m) in
    subst IsAscending (sym (keys_of-items_for m ks))
      (sort_strings-IsAscending (keys_in start end m))

-- The items of an iterator are those items of the map whose keys lie in the range, and their keys
-- ascend in byte order, or descend for a reverse iterator.
pub iterator_lem :
    (m : Memory) (start end : Option Bytes) (reverse : Bool) (k : Bytes)
    → (lookup k (iterator m start end reverse).items
        ≡ (if in_range start end k then lookup k m else none))
      × IsOrdered reverse (keys_of (iterator m start end reverse).items)
iterator_lem m start end reverse k =
    (iterator-lookup m start end reverse k, iterator-IsOrdered m start end reverse)
