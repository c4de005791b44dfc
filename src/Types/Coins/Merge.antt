-- ===== src/Types/Coins/Merge.antt =====
-- The map behind `Add` and `Sub`, and its way back to a sorted list of positive coins.
use punnet_sdk.Base.{
  ℕ, ◌≡◌, refl, true, false, [], ◌∷◌, none, All, arith, if◌then◌else◌, Bool-cases, inl, inr,
}
use punnet_sdk.Base.Bytes.{Bytes, bytes_eq, bytes_lt, eq_iff, eq_refl, lt_irrefl, lt_total}
use punnet_sdk.Base.Dict.{Dict, lookup, insert, get_or, lookup-insert, Distinct, insert-Distinct}
use punnet_sdk.Types.Coin
use punnet_sdk.Types.Coin.{Coin, IsWord}
use punnet_sdk.Types.Coins.{Coins, amount_of, put_all, positive_coins, insert_sorted, sort}
use punnet_sdk.Types.Coins.Order.{Above, Ascending, IsValid, Above-trans}

abbrev pub read : Dict ℕ → Bytes → ℕ
read m d = get_or 0 (lookup d m)

pub read-insert :
    (k d : Bytes) (v : ℕ) (m : Dict ℕ)
    → read (insert k v m) d ≡ (if bytes_eq k d then v else read m d)
read-insert k d v m = ground (arith, lookup-insert k d v m)

-- A coin of the list is above every denomination below the list.
pub Above-amount_of : (d : Bytes) (cs : Coins) → Above d cs → amount_of cs d ≡ 0
unfolding amount_of
Above-amount_of d [] a = refl
Above-amount_of d (c ∷ cs) a =
    ground (arith, eq_iff c.denom d, lt_irrefl d, Above-amount_of d cs a.1)

put_all-Above :
    (m : Dict ℕ) (cs : Coins) (d : Bytes) → Above d cs → read (put_all m cs) d ≡ read m d
unfolding put_all
put_all-Above m [] d a = refl
put_all-Above m (c ∷ cs) d a = ground (
  arith,
  put_all-Above (insert c.denom c.amount m) cs d a.1,
  read-insert c.denom d c.amount m,
  eq_iff c.denom d,
  lt_irrefl d,
)

-- The map that the first loop builds holds the amounts of an ascending collection.
pub read-put_all :
    (m : Dict ℕ) (cs : Coins) (d : Bytes)
    → Ascending cs
    → read m d ≡ 0
    → read (put_all m cs) d ≡ amount_of cs d
unfolding put_all amount_of
read-put_all m [] d a h = h
read-put_all m (c ∷ cs) d a h = elim (Bool-cases (bytes_eq c.denom d)) [
  | inl e ↦ ground (
    arith,
    eq_iff c.denom d,
    put_all-Above (insert c.denom c.amount m) cs c.denom a.0,
    read-insert c.denom c.denom c.amount m,
    eq_refl c.denom,
  )
  | inr e ↦
      ground
        (arith, read-put_all (insert c.denom c.amount m) cs d a.1, read-insert c.denom d c.amount m)
]

pub put_all-Distinct : (m : Dict ℕ) (cs : Coins) → Distinct m → Distinct (put_all m cs)
unfolding put_all
put_all-Distinct m [] h = h
put_all-Distinct m (c ∷ cs) h =
    put_all-Distinct (insert c.denom c.amount m) cs (insert-Distinct c.denom c.amount m h)

pub amount_of-positive_coins :
    (m : Dict ℕ) (d : Bytes) → Distinct m → amount_of (positive_coins m) d ≡ read m d
unfolding amount_of positive_coins lookup
amount_of-positive_coins [] d h = refl
amount_of-positive_coins ((k, v) ∷ m) d h =
    ground (arith, amount_of-positive_coins m d h.1, eq_iff k d)

amount_of-insert_sorted :
    (c : Coin) (cs : Coins) (d : Bytes)
    → amount_of (insert_sorted c cs) d ≡ (if bytes_eq c.denom d then c.amount else amount_of cs d)
unfolding amount_of insert_sorted
amount_of-insert_sorted c [] d = refl
amount_of-insert_sorted c (x ∷ cs) d = ground (
  arith,
  amount_of-insert_sorted c cs d,
  eq_iff x.denom d,
  eq_iff c.denom d,
  eq_iff x.denom c.denom,
  lt_irrefl c.denom,
)

-- Sorting keeps the amount of every denomination.
pub amount_of-sort : (cs : Coins) (d : Bytes) → amount_of (sort cs) d ≡ amount_of cs d
unfolding amount_of sort
amount_of-sort [] d = refl
amount_of-sort (c ∷ cs) d =
    ground (arith, amount_of-sort cs d, amount_of-insert_sorted c (sort cs) d)

-- Other denominations only.
abbrev pub Without : Bytes → Coins → Type 0
Without d = All (λ c. bytes_eq c.denom d ≡ false)

abbrev pub Unique : Coins → Type 0
Unique [] = Unit
Unique (c ∷ cs) = Without c.denom cs × Unique cs

Without-positive_coins : (d : Bytes) (m : Dict ℕ) → lookup d m ≡ none → Without d (positive_coins m)
unfolding lookup positive_coins
Without-positive_coins d [] h = tt
Without-positive_coins d ((k, v) ∷ m) h = ground (arith, Without-positive_coins d m)

pub Unique-positive_coins : (m : Dict ℕ) → Distinct m → Unique (positive_coins m)
unfolding positive_coins
Unique-positive_coins [] h = tt
Unique-positive_coins ((k, v) ∷ m) h =
    ground (arith, Without-positive_coins k m h.0, Unique-positive_coins m h.1)

module _ {κ} (P : Coin → Type κ) where
  All-insert_sorted : (c : Coin) (cs : Coins) → P c → All P cs → All P (insert_sorted c cs)
  unfolding insert_sorted
  All-insert_sorted c [] p h = (p, tt)
  All-insert_sorted c (x ∷ cs) p h = elim (Bool-cases (bytes_lt x.denom c.denom)) [
    | inl e ↦ rw e (h.0, All-insert_sorted c cs p h.1)
    | inr e ↦ rw e (p, h)
  ]

  pub All-sort : (cs : Coins) → All P cs → All P (sort cs)
  unfolding sort
  All-sort [] h = tt
  All-sort (c ∷ cs) h = All-insert_sorted c (sort cs) h.0 (All-sort cs h.1)

insert_sorted-Ascending :
    (c : Coin) (cs : Coins) → Without c.denom cs → Ascending cs → Ascending (insert_sorted c cs)
unfolding insert_sorted
insert_sorted-Ascending c [] u a = (tt, tt)
insert_sorted-Ascending c (x ∷ cs) u a = elim (Bool-cases (bytes_lt x.denom c.denom)) [
  | inl e ↦ rw e (
    All-insert_sorted (λ y. bytes_lt x.denom y.denom ≡ true) c cs e a.0,
    insert_sorted-Ascending c cs u.1 a.1,
  )
  | inr e ↦
      let lt : bytes_lt c.denom x.denom ≡ true = below e in
      rw e ((lt, Above-trans c.denom x.denom cs lt a.0), a)
]
  where
    below : bytes_lt x.denom c.denom ≡ false → bytes_lt c.denom x.denom ≡ true
    below e = ground (arith, lt_total x.denom c.denom e, eq_iff x.denom c.denom)

-- Without a repeated denomination, the sorted collection is strictly ascending.
pub sort-Ascending : (cs : Coins) → Unique cs → Ascending (sort cs)
unfolding sort
sort-Ascending [] u = tt
sort-Ascending (c ∷ cs) u =
    insert_sorted-Ascending c (sort cs) (All-sort (λ y. bytes_eq y.denom c.denom ≡ false) cs u.0)
      (sort-Ascending cs u.1)

-- Every key of the map is a denomination that `Coin.IsValid` accepts.
abbrev pub Keyed : Dict ℕ → Type 0
Keyed [] = Unit
Keyed ((k, v) ∷ m) = (Coin.is_valid (record { denom = k; amount = v }) ≡ true) × Keyed m

pub insert-Keyed :
    (c : Coin) (v : ℕ) (m : Dict ℕ) → Coin.is_valid c ≡ true → Keyed m → Keyed (insert c.denom v m)
unfolding insert Coin.is_valid
insert-Keyed c v [] h k = (h, tt)
insert-Keyed c v ((j, w) ∷ m) h k = ground (arith, insert-Keyed c v m h k.1)

pub put_all-Keyed :
    (m : Dict ℕ) (cs : Coins)
    → All (λ c. Coin.is_valid c ≡ true) cs
    → Keyed m
    → Keyed (put_all m cs)
unfolding put_all
put_all-Keyed m [] h k = k
put_all-Keyed m (c ∷ cs) h k =
    put_all-Keyed (insert c.denom c.amount m) cs h.1 (insert-Keyed c c.amount m h.0 k)

Valid-positive_coins : (m : Dict ℕ) → Keyed m → All (λ c. Coin.is_valid c ≡ true) (positive_coins m)
unfolding positive_coins
Valid-positive_coins [] k = tt
Valid-positive_coins ((j, v) ∷ m) k = ground (arith, Valid-positive_coins m k.1)

Positive-positive_coins : (m : Dict ℕ) → All (λ c. Coin.is_positive c ≡ true) (positive_coins m)
unfolding positive_coins Coin.is_positive
Positive-positive_coins [] = tt
Positive-positive_coins ((j, v) ∷ m) = ground (arith, Positive-positive_coins m)

-- The way back from the map gives a valid collection of positive coins.
pub sorted-IsValid :
    (m : Dict ℕ)
    → Distinct m
    → Keyed m
    → IsValid (sort (positive_coins m))
      × All (λ c. Coin.is_positive c ≡ true) (sort (positive_coins m))
sorted-IsValid m h k = (
  (
    All-sort (λ c. Coin.is_valid c ≡ true) (positive_coins m) (Valid-positive_coins m k),
    sort-Ascending (positive_coins m) (Unique-positive_coins m h),
  ),
  All-sort (λ c. Coin.is_positive c ≡ true) (positive_coins m) (Positive-positive_coins m),
)
