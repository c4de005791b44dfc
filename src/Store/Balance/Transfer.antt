-- ===== src/Store/Balance/Transfer.antt =====
-- `BalanceStore.Transfer` of store/balance_store.go, by the amounts before and after it.
use punnet_sdk.Base.{
  ℕ, zero, suc, sym, subst, ◌-◌, ◌+◌, ◌≤◌, ◌<◌, ◌≡◌, ◌⊎◌, refl, false, not, ◌&&◌, ok, err, Error,
  ltb, if◌then◌else◌, max_u64, add_u64-eq, arith, balance_overflow, insufficient_funds,
  invalid_account, Bool-cases, Outcome-cases, inl, inr,
}
use punnet_sdk.Base.Bytes.{Bytes, bytes_eq, eq_iff, eq_refl}
use punnet_sdk.Types.AccountName
use punnet_sdk.Store.Balance.{
  BalanceStore, Step, new_balance, check_key, get, add_amount, credit, transfer,
}
use punnet_sdk.Store.Balance.Amounts.{
  IsName, IsDenom, IsStore, stored, put, stored-le, stored-put, put-IsStore, get_lem, get_fails,
  add_amount_lem, sub_amount_lem,
}

-- `n` of the denomination has gone from one account to the other, and nothing else has changed.
abbrev pub Moved : BalanceStore → Bytes → Bytes → Bytes → ℕ → BalanceStore → Type 0
Moved s from to d n t =
    (b e : Bytes)
    → IsName b
    → stored t b e + (if bytes_eq from b && bytes_eq d e then n else 0)
      ≡ stored s b e + (if bytes_eq to b && bytes_eq d e then n else 0)

abbrev pub Unchanged : BalanceStore → BalanceStore → Type 0
Unchanged s t = (b e : Bytes) → IsName b → stored t b e ≡ stored s b e

-- The amount has moved without an error, or there is an error and no balance has changed.
abbrev pub Transferred : BalanceStore → Bytes → Bytes → Bytes → ℕ → Step → Type 0
Transferred s from to d n r =
    IsStore r.1
    × (((r.0 ≡ ok tt) × Moved s from to d n r.1) ⊎ ((e : Error) × (r.0 ≡ err e) × Unchanged s r.1))

add_to_nobody :
    (s : BalanceStore) (a d : Bytes) (n : ℕ)
    → AccountName.is_valid a ≡ false
    → 0 < n
    → add_amount s a d n ≡ (err invalid_account, s)
unfolding add_amount get check_key
add_to_nobody s a d n v pos = ground (arith, v)

module _ (s : BalanceStore) (from to d : Bytes) (n : ℕ) (h : IsStore s) (pos : 0 < n) where
  module _ (v : IsName from) (w : IsDenom d) (o : s.closed ≡ false) where
    give_back :
        (x : ℕ)
        → x ≤ max_u64
        → stored s from d + n ≡ x
        → add_amount s from d n ≡ (ok tt, put s from d x)
    give_back x le e =
        rw (add_amount_lem s from d h n v w o pos)
          (ground (arith, add_u64-eq (stored s from d) n, e))

    -- The receiver's account is not valid or its balance overflows, and the sender is given back
    -- its amount; or the receiver has the amount.
    credit_lem :
        (x : ℕ)
        → x ≤ max_u64
        → stored s from d + n ≡ x
        → credit s from to d n ≡ (
            if not (AccountName.is_valid to)
            then (err invalid_account, put s from d x)
            else if ltb (max_u64 - n) (stored s to d)
            then (err balance_overflow, put s from d x)
            else (ok tt, put s to d (stored s to d + n)))
    unfolding credit
    credit_lem x le e = elim (Bool-cases (AccountName.is_valid to)) [
      | inl t ↦ elim (Bool-cases (ltb (max_u64 - n) (stored s to d))) [
        | inl f ↦ rw (add_amount_lem s to d h n t w o pos, f, t, give_back x le e) refl
        | inr f ↦
            rw (add_amount_lem s to d h n t w o pos, f, t)
              (ground (arith, add_u64-eq (stored s to d) n))
      ]
      | inr t ↦ rw (add_to_nobody s to d n t pos, t, give_back x le e) refl
    ]

pub Nat-cases : (n : ℕ) → (n ≡ 0) ⊎ (0 < n)
Nat-cases zero = inl refl
Nat-cases (suc n) = inr (omega arith)

pub transfer_none :
    (s : BalanceStore) (from to d : Bytes) → IsStore s → Transferred s from to d 0 (ok tt, s)
transfer_none s from to d h = (h, inl (refl, λ b e u. ground arith))

transfer_of_none : (s : BalanceStore) (from to d : Bytes) → transfer s from to d 0 ≡ (ok tt, s)
unfolding transfer
transfer_of_none s from to d = refl

transfer_unread :
    (s : BalanceStore) (from to d : Bytes) (n : ℕ) (e : Error)
    → get s from d ≡ err e
    → 0 < n
    → transfer s from to d n ≡ (err e, s)
unfolding transfer
transfer_unread s from to d n e h pos = rw (h) (ground arith)

module _ (s : BalanceStore) (from to d : Bytes) (n : ℕ) (h : IsStore s) where
  module _ (v : IsName from) (w : IsDenom d) (o : s.closed ≡ false) (pos : 0 < n) where
    transfer_form : transfer s from to d n ≡ (
        if ltb (stored s from d) n
        then (err insufficient_funds, s)
        else credit (put s from d (stored s from d - n)) from to d n)
    unfolding transfer new_balance
    transfer_form =
        rw (sub_amount_lem s from d h n v w o pos, get_lem s from d h v w o)
          (elim (Bool-cases (ltb (stored s from d) n)) [
            | inl t ↦ ground (arith, t)
            | inr t ↦ ground (arith, t)
          ])

    module _ (le : n ≤ stored s from d) where
      put_back :
          (t : BalanceStore)
          → t ≡ put s from d (stored s from d - n)
          → Unchanged s (put t from d (stored s from d))
      put_back t e b x u = rw (e) (
          ground (
            arith,
            stored-put (put s from d (stored s from d - n)) from d b x (stored s from d) v u,
            stored-put s from d b x (stored s from d - n) v u,
            eq_iff from b,
            eq_iff d x,
          ))

      pay_on :
          (t : BalanceStore)
          → t ≡ put s from d (stored s from d - n)
          → IsName to
          → Moved s from to d n (put t to d (stored t to d + n))
      pay_on t e r b x u = rw (e) (
          ground (
            arith,
            stored-put (put s from d (stored s from d - n)) to d b x
                (stored (put s from d (stored s from d - n)) to d + n) r u,
            stored-put s from d b x (stored s from d - n) v u,
            stored-put s from d to d (stored s from d - n) v r,
            eq_iff from b,
            eq_iff d x,
            eq_iff to b,
            eq_iff from to,
            eq_iff d d,
          ))

      finish :
          (t : BalanceStore)
          → t ≡ put s from d (stored s from d - n)
          → Transferred s from to d n (credit t from to d n)
      finish t e =
          let le1 = stored-le s from d h v in
          let good =
            subst IsStore (sym e)
              (put-IsStore s from d (stored s from d - n) v (omega (arith, le1)) h) in
          let x = stored s from d in
          let same =
            subst (λ m. stored m from d + n ≡ x) (sym e)
              (ground
                (arith, le, stored-put s from d from d (x - n) v v, eq_refl from, eq_refl d)) in
          rw
            (credit_lem t from to d n good pos v w (subst (λ m. m.closed ≡ false) (sym e) o) x le1
              same)
            (elim (Bool-cases (AccountName.is_valid to)) [
              | inl r ↦ elim (Bool-cases (ltb (max_u64 - n) (stored t to d))) [
                | inl f ↦
                    rw (r, f)
                      (
                        put-IsStore t from d x v le1 good,
                        inr (balance_overflow, refl, put_back t e),
                      )
                | inr f ↦
                    rw (r, f)
                      (
                        put-IsStore t to d (stored t to d + n) r (ground (arith, f)) good,
                        inl (refl, pay_on t e r),
                      )
              ]
              | inr r ↦
                  rw (r)
                    (put-IsStore t from d x v le1 good, inr (invalid_account, refl, put_back t e))
            ])

      succeed :
          IsName to
          → stored s to d + n ≤ max_u64
          → (credit (put s from d (stored s from d - n)) from to d n).0 ≡ ok tt
      succeed r room =
          let x = stored s from d in
          let t = put s from d (x - n) in
          let le1 = stored-le s from d h v in
          let good = put-IsStore s from d (x - n) v (omega (arith, le1)) h in
          let same = stored-put s from d from d (x - n) v v in
          rw
            (credit_lem t from to d n good pos v w o x le1
              (ground (arith, le, same, eq_refl from, eq_refl d)))
            (ground (arith, r, stored-put s from d to d (x - n) v r))

  -- A transfer on a store whose balances stand under their keys as uint64 keeps the store so.
  -- Without an error the amount has gone from the sender to the receiver and no other balance has
  -- changed, also when both are the same account; with an error no balance has changed.
  pub transfer_lem : Transferred s from to d n (transfer s from to d n)
  transfer_lem = elim (Nat-cases n) [
    | inl z ↦ rw (z, transfer_of_none s from to d) (transfer_none s from to d h)
    | inr pos ↦ elim (Outcome-cases (get s from d)) [
      | inl (b, e) ↦
          let (v, w, o) = get_fails s from d h b e in
          rw (transfer_form v w o pos) (elim (Bool-cases (ltb (stored s from d) n)) [
            | inl t ↦ rw (t) (h, inr (insufficient_funds, refl, λ b x u. refl))
            | inr t ↦
                rw (t)
                  (finish v w o pos (ground (arith, t)) (put s from d (stored s from d - n)) refl)
          ])
      | inr (x, e) ↦ rw (transfer_unread s from to d n x e pos) (h, inr (x, refl, λ b x u. refl))
    ]
  ]

  -- On an open store whose balances stand under their keys as uint64, a transfer between valid
  -- accounts, of a denomination that is not empty and an amount that the sender has and the
  -- receiver has room for, succeeds.
  pub transfer_succeeds :
      IsName from
      → IsName to
      → IsDenom d
      → s.closed ≡ false
      → n ≤ stored s from d
      → stored s to d + n ≤ max_u64
      → (transfer s from to d n).0 ≡ ok tt
  transfer_succeeds v r w o le room = elim (Nat-cases n) [
    | inl z ↦ rw (z, transfer_of_none s from to d) refl
    | inr pos ↦ rw (transfer_form v w o pos) (ground (arith, succeed v w o pos le r room))
  ]
