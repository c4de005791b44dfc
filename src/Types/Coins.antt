-- ===== src/Types/Coins.antt =====
-- types/coin.go: collections of coins. The map `result` of `Add` and `Sub` is a `Dict`; the list that
-- ranges over it is in the order of the `Dict`, and is then sorted.
pub mod Order
pub mod Merge
pub mod Add
pub mod Sub
use punnet_sdk.Base.{
  ℕ, ◌-◌, ◌+◌, Bool, true, false, not, List, [], ◌∷◌, map, Option, none, some, Outcome, ok, err,
  insufficient_funds, ltb, if◌then◌else◌, max_u64, add_u64, ◌>>=◌,
}
use punnet_sdk.Base.Bytes.{Bytes, bytes_eq, bytes_lt}
use punnet_sdk.Base.Dict.{Dict, lookup, insert, get_or}
use punnet_sdk.Types.Coin
use punnet_sdk.Types.Coin.{Coin}

abbrev pub Coins : Type 0
Coins = List Coin

-- The defensive copy is the list itself.
unfoldable pub new_coins : Coins → Coins
new_coins coins = coins

-- The first loop of `IsValid`.
unfoldable pub all_valid : Coins → Bool
all_valid [] = true
all_valid (c ∷ cs) = if not (Coin.is_valid c) then false else all_valid cs

-- `i > 0 && strings.Compare(coin.Denom, prevDenom) <= 0`; `none` stands for `i == 0`.
unfoldable pub not_above : Option Bytes → Bytes → Bool
not_above none d = false
not_above (some prev) d = not (bytes_lt prev d)

-- The second loop of `IsValid`.
unfoldable pub is_ordered : Dict Bool → Option Bytes → Coins → Bool
unfolding not_above
is_ordered seen prev [] = true
is_ordered seen prev (c ∷ cs) =
    if get_or false (lookup c.denom seen)
    then false
    else if not_above prev c.denom
    then false
    else is_ordered (insert c.denom true seen) (some c.denom) cs

unfoldable pub is_valid : Coins → Bool
is_valid coins = if all_valid coins then is_ordered [] none coins else false

unfoldable pub is_zero : Coins → Bool
is_zero [] = true
is_zero (c ∷ cs) = if not (Coin.is_zero c) then false else is_zero cs

-- The loop of `IsAllPositive`.
unfoldable pub all_positive : Coins → Bool
all_positive [] = true
all_positive (c ∷ cs) = if not (Coin.is_positive c) then false else all_positive cs

unfoldable pub is_all_positive : Coins → Bool
unfolding all_positive
is_all_positive [] = false
is_all_positive (c ∷ cs) = all_positive (c ∷ cs)

unfoldable pub amount_of : Coins → Bytes → ℕ
amount_of [] denom = 0
amount_of (c ∷ cs) denom = if bytes_eq c.denom denom then c.amount else amount_of cs denom

-- `result[coin.Denom] = coin.Amount` for every coin.
unfoldable pub put_all : Dict ℕ → Coins → Dict ℕ
put_all m [] = m
put_all m (c ∷ cs) = put_all (insert c.denom c.amount m) cs

-- The sum that `Add` stores, saturating at the largest uint64.
unfoldable pub add_saturating : ℕ → ℕ → ℕ
unfolding add_u64
add_saturating existing amount =
    if ltb (max_u64 - amount) existing then max_u64 else add_u64 existing amount

-- The second loop of `Add`.
unfoldable pub add_all : Dict ℕ → Coins → Dict ℕ
add_all m [] = m
add_all m (c ∷ cs) =
    add_all (insert c.denom (add_saturating (get_or 0 (lookup c.denom m)) c.amount) m) cs

-- The second loop of `Sub`.
unfoldable pub sub_all : Dict ℕ → Coins → Outcome (Dict ℕ)
sub_all m [] = ok m
sub_all m (c ∷ cs) =
    let existing = get_or 0 (lookup c.denom m) in
    let rest = sub_all (insert c.denom (existing - c.amount) m) cs in
    if ltb existing c.amount then err insufficient_funds else rest

-- The entries with a positive amount, as coins.
unfoldable pub positive_coins : Dict ℕ → Coins
positive_coins [] = []
positive_coins ((denom, amount) ∷ m) =
    let rest = positive_coins m in
    if ltb 0 amount then record { denom = denom; amount = amount } ∷ rest else rest

-- `sort.Slice` by the order of the denominations.
unfoldable pub insert_sorted : Coin → Coins → Coins
insert_sorted c [] = c ∷ []
insert_sorted c (x ∷ xs) = if bytes_lt x.denom c.denom then x ∷ insert_sorted c xs else c ∷ x ∷ xs

unfoldable pub sort : Coins → Coins
unfolding insert_sorted
sort [] = []
sort (c ∷ cs) = insert_sorted c (sort cs)

unfoldable pub add : Coins → Coins → Coins
add coins other = sort (positive_coins (add_all (put_all [] coins) other))

unfoldable pub sub : Coins → Coins → Outcome Coins
sub coins other = do m ← sub_all (put_all [] coins) other; ok (sort (positive_coins m))

unfoldable pub is_all_gte : Coins → Coins → Bool
is_all_gte coins [] = true
is_all_gte coins (c ∷ cs) =
    if ltb (amount_of coins c.denom) c.amount then false else is_all_gte coins cs
