-- ===== src/Store/Balance/Amounts.antt =====
-- The balances of a store as amounts by account and denomination.
use punnet_sdk.Base.{
  ℕ, ◌-◌, ◌≤◌, ◌<◌, ◌≡◌, refl, true, false, ◌&&◌, [], Option, none, some, ok, err, ltb,
  if◌then◌else◌, max_u64, add_u64, arith, balance_overflow, insufficient_funds, Bool-cases, inl,
  inr,
}
use punnet_sdk.Base.Bytes.{Bytes, bytes_eq, eq_iff}
use punnet_sdk.Base.Dict.{lookup, insert, lookup-insert}
use punnet_sdk.Types.AccountName
use punnet_sdk.Store.Objects
use punnet_sdk.Store.Balance.{
  Balance, BalanceStore, new_balance, is_valid, balance_key, check_key, get, set, add_amount,
  sub_amount,
}
use punnet_sdk.Store.Balance.Keys.{balance_key_injective}

abbrev pub amount_of : Option Balance → ℕ
amount_of none = 0
amount_of (some b) = b.amount

-- The amount that is stored for an account and a denomination.
abbrev pub stored : BalanceStore → Bytes → Bytes → ℕ
stored s a d = amount_of (lookup (balance_key a d) s.entries)

abbrev pub IsName : Bytes → Type 0
IsName a = AccountName.is_valid a ≡ true

abbrev pub IsDenom : Bytes → Type 0
IsDenom d = bytes_eq d [] ≡ false

-- Every balance is stored under its own key and is a uint64.
abbrev pub IsStore : BalanceStore → Type 0
IsStore s =
    (a d : Bytes) (b : Balance)
    → IsName a
    → lookup (balance_key a d) s.entries ≡ some b
    → (b.account ≡ a) × (b.denom ≡ d) × (b.amount ≤ max_u64)

abbrev pub put : BalanceStore → Bytes → Bytes → ℕ → BalanceStore
put s a d n = record {
  entries = insert (balance_key a d) (new_balance a d n) s.entries;
  closed = s.closed;
}

pub stored-le : (s : BalanceStore) (a d : Bytes) → IsStore s → IsName a → stored s a d ≤ max_u64
stored-le s a d h v = go (lookup (balance_key a d) s.entries) refl
  where
    go : (o : Option Balance) → lookup (balance_key a d) s.entries ≡ o → amount_of o ≤ max_u64
    go none e = omega arith
    go (some b) e = let (x, y, le) = h a d b v e in omega (arith, le)

pub same_place :
    (a b d e : Bytes)
    → IsName a
    → IsName b
    → bytes_eq (balance_key a d) (balance_key b e) ≡ (bytes_eq a b && bytes_eq d e)
same_place a b d e v w = ground (
  arith,
  eq_iff (balance_key a d) (balance_key b e),
  eq_iff a b,
  eq_iff d e,
  balance_key_injective a b d e v w,
)

pub stored-put :
    (s : BalanceStore) (a d b e : Bytes) (n : ℕ)
    → IsName a
    → IsName b
    → stored (put s a d n) b e ≡ (if bytes_eq a b && bytes_eq d e then n else stored s b e)
unfolding new_balance
stored-put s a d b e n v w =
    rw
      (
        lookup-insert (balance_key a d) (balance_key b e) (new_balance a d n) s.entries,
        same_place a b d e v w,
      )
      (elim (Bool-cases (bytes_eq a b && bytes_eq d e)) [
        | inl t ↦ rw (t) refl
        | inr t ↦ rw (t) refl
      ])

pub put-IsStore :
    (s : BalanceStore) (a d : Bytes) (n : ℕ)
    → IsName a
    → n ≤ max_u64
    → IsStore s
    → IsStore (put s a d n)
unfolding new_balance
put-IsStore s a d n v le h b e x w eq = ground (
  arith,
  lookup-insert (balance_key a d) (balance_key b e) (new_balance a d n) s.entries,
  same_place a b d e v w,
  eq_iff a b,
  eq_iff d e,
  h b e x w,
)

module _ (s : BalanceStore) (a d : Bytes) (h : IsStore s) where
  -- `Get` succeeds on an open store with a valid account and denomination only, with the amount
  -- that is stored.
  pub get_lem :
      IsName a → IsDenom d → s.closed ≡ false → get s a d ≡ ok (new_balance a d (stored s a d))
  unfolding get check_key new_balance Objects.get
  get_lem v w o = go (lookup (balance_key a d) s.entries) refl
    where
      go :
          (x : Option Balance)
          → lookup (balance_key a d) s.entries ≡ x
          → get s a d ≡ ok (new_balance a d (stored s a d))
      go none e = ground (arith, v, w, o, e)
      go (some b) e = ground (arith, v, w, o, e, h a d b v e)

  pub get_fails : (b : Balance) → get s a d ≡ ok b → IsName a × IsDenom d × (s.closed ≡ false)
  unfolding get check_key Objects.get
  get_fails b e = ground (arith)

  pub set_lem :
      (n : ℕ)
      → IsName a
      → IsDenom d
      → s.closed ≡ false
      → set s (new_balance a d n) ≡ (ok tt, put s a d n)
  unfolding set is_valid new_balance Objects.set
  set_lem n v w o = ground (arith, v, w, o)

  -- Adding: an overflow, or the sum is stored.
  pub add_amount_lem :
      (n : ℕ)
      → IsName a
      → IsDenom d
      → s.closed ≡ false
      → 0 < n
      → add_amount s a d n ≡ (
          if ltb (max_u64 - n) (stored s a d)
          then (err balance_overflow, s)
          else (ok tt, put s a d (add_u64 (stored s a d) n)))
  unfolding add_amount new_balance
  add_amount_lem n v w o pos =
      rw (get_lem v w o) (ground (arith, set_lem (add_u64 (stored s a d) n) v w o))

  -- Subtracting: the funds do not suffice, or the difference is stored.
  pub sub_amount_lem :
      (n : ℕ)
      → IsName a
      → IsDenom d
      → s.closed ≡ false
      → 0 < n
      → sub_amount s a d n ≡ (
          if ltb (stored s a d) n
          then (err insufficient_funds, s)
          else (ok tt, put s a d (stored s a d - n)))
  unfolding sub_amount new_balance
  sub_amount_lem n v w o pos = rw (get_lem v w o) (ground (arith, set_lem (stored s a d - n) v w o))
