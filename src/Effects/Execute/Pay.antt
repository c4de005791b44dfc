-- ===== src/Effects/Execute/Pay.antt =====
-- The transfers of effects/executor.go: what they leave of the balances, with and without an error.
use punnet_sdk.Base.{
  ℕ, ◌+◌, ◌-◌, ◌≤◌, ◌<◌, ◌≡◌, ◌⊎◌, refl, ap, false, [], ◌∷◌, ◌++◌, ok, err, Error, ltb,
  if◌then◌else◌, max_u64, add_u64-eq, arith, All, balance_overflow, insufficient_funds, Bool-cases,
  inl, inr,
}
use punnet_sdk.Base.Bytes.{Bytes, bytes_eq, eq_iff}
use punnet_sdk.Types.Coin.{Coin}
use punnet_sdk.Types.Coins.{Coins}
use punnet_sdk.Store.Balance.{BalanceStore, Step, add_amount, writing}
use punnet_sdk.Store.Balance.Amounts.{
  IsName, IsDenom, IsStore, stored, put, stored-le, stored-put, put-IsStore, add_amount_lem,
  sub_amount_lem,
}
use punnet_sdk.Effects.Execute.{pay_coins}

-- What the coins hold of a denomination.
abbrev pub total : Coins → Bytes → ℕ
total [] d = 0
total (c ∷ cs) d = (if bytes_eq c.denom d then c.amount else 0) + total cs d

-- From `s` to `t`, the coins `out` have left the first account and the coins `into` have come to the
-- second one, and no other balance has changed.
abbrev pub Balanced : BalanceStore → Bytes → Bytes → Coins → Coins → BalanceStore → Type 0
Balanced s from to out into t =
    (b d : Bytes)
    → IsName b
    → stored t b d + (if bytes_eq from b then total out d else 0)
      ≡ stored s b d + (if bytes_eq to b then total into d else 0)

-- The coins are all paid; or, with an error, the coins before one of them are, and that one has left
-- the first account or has not.
abbrev pub Paid : BalanceStore → Bytes → Bytes → Coins → Step → Type 0
Paid s from to coins r =
    IsStore r.1
    × (((r.0 ≡ ok tt) × Balanced s from to coins coins r.1)
        ⊎ ((done : Coins) × (c : Coin) × (rest : Coins) × (x : Error) × (coins ≡ done ++ c ∷ rest)
            × (r.0 ≡ err x)
            × (Balanced s from to done done r.1 ⊎ Balanced s from to (done ++ c ∷ []) done r.1)))

abbrev pub IsPayable : Coin → Type 0
IsPayable c = IsDenom c.denom × (0 < c.amount) × (c.amount ≤ max_u64)

module _ (from to : Bytes) where
  pub Balanced-cons :
      (s u t : BalanceStore) (c : Coin) (out into : Coins)
      → Balanced s from to (c ∷ []) (c ∷ []) u
      → Balanced u from to out into t
      → Balanced s from to (c ∷ out) (c ∷ into) t
  Balanced-cons s u t c out into p q b d v = ground (arith, p b d v, q b d v)

  pub Balanced-none : (s : BalanceStore) → Balanced s from to [] [] s
  Balanced-none s b d v = ground arith

  -- The steps of one coin.
  took :
      (s : BalanceStore) (c : Coin)
      → IsName from
      → c.amount ≤ stored s from c.denom
      → Balanced s from to (c ∷ []) [] (put s from c.denom (stored s from c.denom - c.amount))
  took s c v le b d w = ground (
    arith,
    le,
    stored-put s from c.denom b d (stored s from c.denom - c.amount) v w,
    eq_iff from b,
    eq_iff c.denom d,
  )

  gave :
      (s u : BalanceStore) (c : Coin)
      → IsName to
      → Balanced s from to (c ∷ []) [] u
      → Balanced s from to (c ∷ []) (c ∷ []) (put u to c.denom (stored u to c.denom + c.amount))
  gave s u c v p b d w = ground (
    arith,
    p b d w,
    stored-put u to c.denom b d (stored u to c.denom + c.amount) v w,
    eq_iff to b,
    eq_iff c.denom d,
  )

  extend :
      (s u : BalanceStore) (c : Coin) (cs : Coins) (r : Step)
      → Balanced s from to (c ∷ []) (c ∷ []) u
      → Paid u from to cs r
      → Paid s from to (c ∷ cs) r
  extend s u c cs r p (good, inl (e, q)) = (good, inl (e, Balanced-cons s u r.1 c cs cs p q))
  extend s u c cs r p (good, inr (done, k, rest, x, split, e, inl q)) = (
    good,
    inr (
      c ∷ done,
      k,
      rest,
      x,
      ap (λ l. c ∷ l) split,
      e,
      inl (Balanced-cons s u r.1 c done done p q),
    ),
  )
  extend s u c cs r p (good, inr (done, k, rest, x, split, e, inr q)) = (
    good,
    inr (
      c ∷ done,
      k,
      rest,
      x,
      ap (λ l. c ∷ l) split,
      e,
      inr (Balanced-cons s u r.1 c (done ++ k ∷ []) done p q),
    ),
  )

  module _ (v : IsName from) (w : IsName to) where
    -- The step of one coin behind its first half.
    credited :
        (s u : BalanceStore) (c : Coin) (cs : Coins)
        → IsStore u
        → u.closed ≡ false
        → IsPayable c
        → Balanced s from to (c ∷ []) [] u
        → ((t : BalanceStore)
            → IsStore t
            → t.closed ≡ false
            → Paid t from to cs (pay_coins from to cs t))
        → Paid s from to (c ∷ cs) (
            writing
              (add_amount u to c.denom c.amount).0
              (add_amount u to c.denom c.amount).1
              (λ t. pay_coins from to cs t)
              (λ e t. (err e, t)))
    credited s u c cs good o payable p next =
        elim (Bool-cases (ltb (max_u64 - c.amount) (stored u to c.denom))) [
          | inl over ↦
              rw (add_amount_lem u to c.denom good c.amount w payable.0 o payable.1, over)
                (good, inr ([], c, cs, balance_overflow, refl, refl, inr p))
          | inr fits ↦
              let sum =
                add_u64-eq (stored u to c.denom) c.amount (ground (arith, fits, payable.2)) in
              rw (add_amount_lem u to c.denom good c.amount w payable.0 o payable.1, fits, sum)
                (extend s (put u to c.denom (stored u to c.denom + c.amount)) c cs
                  (pay_coins from to cs (put u to c.denom (stored u to c.denom + c.amount)))
                  (gave s u c w p)
                  (next (put u to c.denom (stored u to c.denom + c.amount))
                    (put-IsStore u to c.denom (stored u to c.denom + c.amount) w
                      (ground (arith, fits, payable.2)) good)
                    o))
        ]

    -- The payment of coins of positive uint64 amounts and denominations that are not empty, between valid
    -- accounts, on an open store whose balances stand under their keys as uint64, keeps the store so.
    -- Without an error all coins have moved. With one, the coins before some coin have moved, that
    -- coin has left the sender or has not, and no other balance has changed.
    pub pay_coins_lem :
        (coins : Coins) (s : BalanceStore)
        → All IsPayable coins
        → IsStore s
        → s.closed ≡ false
        → Paid s from to coins (pay_coins from to coins s)
    unfolding pay_coins
    pay_coins_lem [] s h good o = (good, inl (refl, Balanced-none s))
    pay_coins_lem (c ∷ cs) s h good o = elim (Bool-cases (ltb (stored s from c.denom) c.amount)) [
      | inl short ↦
          rw (sub_amount_lem s from c.denom good c.amount v h.0.0 o h.0.1, short)
            (good, inr ([], c, cs, insufficient_funds, refl, refl, inl (Balanced-none s)))
      | inr enough ↦
          let le : c.amount ≤ stored s from c.denom = ground (arith, enough) in
          let u = put s from c.denom (stored s from c.denom - c.amount) in
          rw (sub_amount_lem s from c.denom good c.amount v h.0.0 o h.0.1, enough)
            (credited s u c cs
              (put-IsStore s from c.denom (stored s from c.denom - c.amount) v
                (omega (arith, stored-le s from c.denom good v)) good)
              o h.0 (took s c v le) (λ u2 good2 o2. pay_coins_lem cs u2 h.1 good2 o2))
    ]
