-- ===== src/Types/Coins/Sub.antt =====
-- `Coins.Sub` of types/coin.go.
use punnet_sdk.Base.{
  ℕ, ◌+◌, ◌-◌, ◌≡◌, refl, true, false, [], ◌∷◌, All, arith, ltb, Bool-cases, inl, inr, Outcome, ok,
  err, insufficient_funds, ◌⊎◌, ◌∙◌,
}
use punnet_sdk.Base.Bytes.{Bytes, bytes_eq, eq_iff, eq_refl, lt_irrefl}
use punnet_sdk.Base.Dict.{Dict, lookup, insert, Distinct, insert-Distinct}
use punnet_sdk.Types.Coin
use punnet_sdk.Types.Coin.{Coin, IsWord}
use punnet_sdk.Types.Coins.{
  Coins, amount_of, put_all, sub_all, positive_coins, sort, sub, is_all_gte,
}
use punnet_sdk.Types.Coins.Order.{Above, Ascending, IsValid}
use punnet_sdk.Types.Coins.Merge.{
  read, read-insert, read-put_all, put_all-Distinct, amount_of-positive_coins, amount_of-sort,
  Keyed, insert-Keyed, put_all-Keyed, sorted-IsValid,
}

sub_all-Above :
    (m m' : Dict ℕ) (cs : Coins) (d : Bytes)
    → Above d cs
    → sub_all m cs ≡ ok m'
    → read m' d ≡ read m d
unfolding sub_all
sub_all-Above m m' [] d a h = cc
sub_all-Above m m' (c ∷ cs) d a h =
    let v = read m c.denom - c.amount in
    ground (
      arith,
      sub_all-Above (insert c.denom v m) m' cs d a.1,
      read-insert c.denom d v m,
      eq_iff c.denom d,
      lt_irrefl d,
    )

read-sub_all :
    (m m' : Dict ℕ) (cs : Coins) (d : Bytes)
    → Ascending cs
    → sub_all m cs ≡ ok m'
    → read m' d + amount_of cs d ≡ read m d
unfolding sub_all amount_of
read-sub_all m m' [] d a h = ground arith
read-sub_all m m' (c ∷ cs) d a h =
    let v = read m c.denom - c.amount in
    elim (Bool-cases (bytes_eq c.denom d)) [
      | inl e ↦
          let same : c.denom ≡ d = (eq_iff c.denom d).0 e in
          ground (
            arith,
            same,
            sub_all-Above (insert c.denom v m) m' cs c.denom a.0,
            read-insert c.denom c.denom v m,
            eq_refl c.denom,
          )
      | inr e ↦
          ground (arith, read-sub_all (insert c.denom v m) m' cs d a.1, read-insert c.denom d v m)
    ]

sub_all-Distinct : (m m' : Dict ℕ) (cs : Coins) → Distinct m → sub_all m cs ≡ ok m' → Distinct m'
unfolding sub_all
sub_all-Distinct m m' [] h e = ground arith
sub_all-Distinct m m' (c ∷ cs) h e = ground (
  arith,
  sub_all-Distinct (insert c.denom (read m c.denom - c.amount) m) m' cs
      (insert-Distinct c.denom (read m c.denom - c.amount) m h),
)

sub_all-Keyed :
    (m m' : Dict ℕ) (cs : Coins)
    → All (λ c. Coin.is_valid c ≡ true) cs
    → Keyed m
    → sub_all m cs ≡ ok m'
    → Keyed m'
unfolding sub_all
sub_all-Keyed m m' [] h k e = ground arith
sub_all-Keyed m m' (c ∷ cs) h k e =
    let v = read m c.denom - c.amount in
    ground (arith, sub_all-Keyed (insert c.denom v m) m' cs h.1 (insert-Keyed c v m h.0 k))

-- The map agrees with the amounts of `a` at the denominations of `cs`.
abbrev Agrees : Dict ℕ → Coins → Coins → Type 0
Agrees m a = All (λ c. read m c.denom ≡ amount_of a c.denom)

Agrees-insert :
    (d : Bytes) (v : ℕ) (m : Dict ℕ) (a cs : Coins)
    → Above d cs
    → Agrees m a cs
    → Agrees (insert d v m) a cs
Agrees-insert d v m a [] u h = tt
Agrees-insert d v m a (c ∷ cs) u h = (
  ground (arith, read-insert d c.denom v m, eq_iff d c.denom, lt_irrefl d),
  Agrees-insert d v m a cs u.1 h.1,
)

Agrees-put_all : (a cs : Coins) → Ascending a → Agrees (put_all [] a) a cs
unfolding lookup
Agrees-put_all a [] h = tt
Agrees-put_all a (c ∷ cs) h = (read-put_all [] a c.denom h refl, Agrees-put_all a cs h)

sub_all-decides :
    (m : Dict ℕ) (a cs : Coins)
    → Ascending cs
    → Agrees m a cs
    → ((is_all_gte a cs ≡ true) × ((m' : Dict ℕ) × (sub_all m cs ≡ ok m')))
      ⊎ ((is_all_gte a cs ≡ false) × (sub_all m cs ≡ err insufficient_funds))
unfolding is_all_gte sub_all
sub_all-decides m a [] u h = inl (refl, (m, refl))
sub_all-decides m a (c ∷ cs) u h =
    let v = read m c.denom - c.amount in
    elim (Bool-cases (ltb (read m c.denom) c.amount)) [
      | inl e ↦ inr (rw (← h.0, e), rw e)
      | inr e ↦
          rw (← h.0, e)
            (sub_all-decides (insert c.denom v m) a cs u.1 (Agrees-insert c.denom v m a cs u.0 h.1))
    ]

-- What `Sub` promises of its two results.
abbrev pub Subtraction : Coins → Coins → Outcome Coins → Type 0
Subtraction a b (ok c) =
    (is_all_gte a b ≡ true)
    × IsValid c
    × All (λ x. Coin.is_positive x ≡ true) c
    × ((d : Bytes) → amount_of c d + amount_of b d ≡ amount_of a d)
Subtraction a b (err e) = (is_all_gte a b ≡ false) × (e ≡ insufficient_funds)

sub_ok :
    (a b : Coins) (m' : Dict ℕ)
    → IsValid a
    → IsValid b
    → sub_all (put_all [] a) b ≡ ok m'
    → is_all_gte a b ≡ true
    → Subtraction a b (ok (sort (positive_coins m')))
sub_ok a b m' va vb e g =
    let distinct = sub_all-Distinct (put_all [] a) m' b (put_all-Distinct [] a tt) e in
    let valid =
      sorted-IsValid m' distinct
        (sub_all-Keyed (put_all [] a) m' b vb.0 (put_all-Keyed [] a va.0 tt) e) in
    (
      g,
      valid.0,
      valid.1,
      λ d.
          rw (amount_of-sort, amount_of-positive_coins m' d distinct)
            (read-sub_all (put_all [] a) m' b d vb.1 e
              ∙ read-put_all [] a d va.1 (unfold lookup in refl)),
    )

-- On valid collections `Sub` succeeds exactly when `IsAllGTE` holds. The result is then a valid
-- collection of positive coins with the exact difference in every denomination; otherwise the error
-- is that of insufficient funds.
pub sub_lem : (a b : Coins) → IsValid a → IsValid b → Subtraction a b (sub a b)
unfolding sub
sub_lem a b va vb = elim (sub_all-decides (put_all [] a) a b vb.1 (Agrees-put_all a b va.1)) [
  | inl (g, (m', e)) ↦ rw e (sub_ok a b m' va vb e g)
  | inr (g, e) ↦ rw e (g, refl)
]
