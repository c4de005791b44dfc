-- ===== src/Types/Coins/Add.antt =====
-- `Coins.Add` of types/coin.go.
use punnet_sdk.Base.{
  ℕ, ◌+◌, ◌≤◌, ◌≡◌, refl, true, [], ◌∷◌, All, arith, leb, if◌then◌else◌, max_u64, Bool-cases, inl,
  inr,
}
use punnet_sdk.Base.Bytes.{Bytes, bytes_eq, eq_iff, eq_refl, lt_irrefl}
use punnet_sdk.Base.Dict.{Dict, lookup, insert, Distinct, insert-Distinct}
use punnet_sdk.Types.Coin
use punnet_sdk.Types.Coin.{Coin, IsWord}
use punnet_sdk.Types.Coins.{Coins, amount_of, put_all, add_saturating, add_all, add}
use punnet_sdk.Types.Coins.Order.{Above, Ascending, IsValid}
use punnet_sdk.Types.Coins.Merge.{
  read, read-insert, read-put_all, put_all-Distinct, amount_of-positive_coins, amount_of-sort,
  Keyed, insert-Keyed, put_all-Keyed, sorted-IsValid,
}

-- The sum, cut off at the largest uint64.
abbrev pub saturated : ℕ → ℕ
saturated n = if leb n max_u64 then n else max_u64

add_saturating_lem : (x y : ℕ) → x ≤ max_u64 → y ≤ max_u64 → add_saturating x y ≡ saturated (x + y)
unfolding add_saturating
add_saturating_lem x y h k = ground arith

amount_of-le : (cs : Coins) (d : Bytes) → All IsWord cs → amount_of cs d ≤ max_u64
unfolding amount_of
amount_of-le [] d h = omega arith
amount_of-le (c ∷ cs) d h = ground (arith, amount_of-le cs d h.1)

add_all-Above :
    (m : Dict ℕ) (cs : Coins) (d : Bytes) → Above d cs → read (add_all m cs) d ≡ read m d
unfolding add_all
add_all-Above m [] d a = refl
add_all-Above m (c ∷ cs) d a =
    let v = add_saturating (read m c.denom) c.amount in
    ground (
      arith,
      add_all-Above (insert c.denom v m) cs d a.1,
      read-insert c.denom d v m,
      eq_iff c.denom d,
      lt_irrefl d,
    )

read-add_all :
    (m : Dict ℕ) (cs : Coins) (d : Bytes)
    → Ascending cs
    → All IsWord cs
    → read m d ≤ max_u64
    → read (add_all m cs) d ≡ saturated (read m d + amount_of cs d)
unfolding add_all amount_of
read-add_all m [] d a w h = ground arith
read-add_all m (c ∷ cs) d a w h =
    let v = add_saturating (read m c.denom) c.amount in
    elim (Bool-cases (bytes_eq c.denom d)) [
      | inl e ↦
          let same : c.denom ≡ d = (eq_iff c.denom d).0 e in
          ground (
            arith,
            same,
            add_all-Above (insert c.denom v m) cs c.denom a.0,
            read-insert c.denom c.denom v m,
            eq_refl c.denom,
            add_saturating_lem (read m c.denom) c.amount,
          )
      | inr e ↦
          ground (arith, read-add_all (insert c.denom v m) cs d a.1 w.1, read-insert c.denom d v m)
    ]

add_all-Distinct : (m : Dict ℕ) (cs : Coins) → Distinct m → Distinct (add_all m cs)
unfolding add_all
add_all-Distinct m [] h = h
add_all-Distinct m (c ∷ cs) h =
    add_all-Distinct (insert c.denom (add_saturating (read m c.denom) c.amount) m) cs
      (insert-Distinct c.denom (add_saturating (read m c.denom) c.amount) m h)

add_all-Keyed :
    (m : Dict ℕ) (cs : Coins)
    → All (λ c. Coin.is_valid c ≡ true) cs
    → Keyed m
    → Keyed (add_all m cs)
unfolding add_all
add_all-Keyed m [] h k = k
add_all-Keyed m (c ∷ cs) h k =
    let v = add_saturating (read m c.denom) c.amount in
    add_all-Keyed (insert c.denom v m) cs h.1 (insert-Keyed c v m h.0 k)

module _ (a b : Coins) (va : IsValid a) (vb : IsValid b) (wa : All IsWord a)
    (wb : All IsWord b) where
  -- The sum of two valid collections of uint64 amounts holds, of every denomination, the sum of
  -- the two amounts, cut off at the largest uint64.
  pub amount_of-add :
      (d : Bytes) → amount_of (add a b) d ≡ saturated (amount_of a d + amount_of b d)
  unfolding add
  amount_of-add d =
      let start : read (put_all [] a) d ≡ amount_of a d =
        read-put_all [] a d va.1 (unfold lookup in refl) in
      let le : read (put_all [] a) d ≤ max_u64 = rw start (amount_of-le a d wa) in
      rw (
        amount_of-sort,
        amount_of-positive_coins (add_all (put_all [] a) b) d
            (add_all-Distinct (put_all [] a) b (put_all-Distinct [] a tt)),
        read-add_all (put_all [] a) b d vb.1 wb le,
        start,
      )

-- The sum of two valid collections is a valid collection of positive coins.
pub add-IsValid :
    (a b : Coins)
    → IsValid a
    → IsValid b
    → IsValid (add a b) × All (λ c. Coin.is_positive c ≡ true) (add a b)
unfolding add
add-IsValid a b va vb =
    sorted-IsValid (add_all (put_all [] a) b)
      (add_all-Distinct (put_all [] a) b (put_all-Distinct [] a tt))
      (add_all-Keyed (put_all [] a) b vb.0 (put_all-Keyed [] a va.0 tt))
