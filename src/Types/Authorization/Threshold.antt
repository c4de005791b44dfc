-- ===== src/Types/Authorization/Threshold.antt =====
-- The weight of a tree of authorizations by itself, without the order, the running total and the
-- errors of the code, and what `VerifyAuthorization` promises in its terms.
use punnet_sdk.Base.{
  ℕ, ◌+◌, ◌≤◌, ◌≡◌, refl, Bool, true, false, ◌&&◌, ◌||◌, [], some, arith, Outcome, ok, err,
  add_u64-eq, max_u64, Bool-cases, inl, inr, >>=-eq-ok, ltb, leb, fail_if, ap, sym, ◌∙◌,
}
use punnet_sdk.Base.Bytes.{Bytes, bytes_eq, eq_iff, eq_refl}
use punnet_sdk.Base.Dict.{Dict, lookup, insert, get_or}
use punnet_sdk.Types.Authority.{Authority, Account, has_account, get_account_weight}
use punnet_sdk.Types.Signature.{Curves}
use punnet_sdk.Types.Authorization.{
  Authorization, authorization, Delegates, nobody, delegate, nil_delegate, count_delegate,
  weigh_signatures, calculate_weight, weigh_delegates, max_recursion,
}
use punnet_sdk.Types.Authorization.Weight.{
  weight_where, weight_where-cong, weight_where-none, weight_where_add,
}
use punnet_sdk.Types.Authorization.Signed.{IsAuthority, signed, weigh_signatures_lem, get_or-le}

-- The map of delegated authorizations has `acct`.
unfoldable pub has_delegate : Bytes → Delegates → Bool
has_delegate acct nobody = false
has_delegate acct (delegate name auth ds) = bytes_eq name acct || has_delegate acct ds
has_delegate acct (nil_delegate name ds) = bytes_eq name acct || has_delegate acct ds

-- Each map of delegated authorizations in the tree has a name once, as a Go map has.
abbrev mutual
  pub IsTree : Authorization → Type 0
  IsTree (authorization ss ds) = IsForest ds

  pub IsForest : Delegates → Type 0
  IsForest nobody = Unit
  IsForest (delegate name auth ds) = (has_delegate name ds ≡ false) × IsTree auth × IsForest ds
  IsForest (nil_delegate name ds) = (has_delegate name ds ≡ false) × IsForest ds

module _ (c : Curves) (message : Bytes) (getter : Bytes → Outcome Account) where
  unfoldable mutual
    -- The keys of the authority that have signed, and its delegated accounts that approve.
    pub authorized_weight : Authorization → Authority → ℕ
    authorized_weight (authorization ss ds) a =
        weight_where (signed c message ss) a.key_weights
        + weight_where (approves ds) a.account_weights

    -- The account `acct` is among the delegated ones and reaches its own threshold.
    pub approves : Delegates → Bytes → Bool
    approves nobody acct = false
    approves (delegate name auth ds) acct =
        let rest = approves ds acct in
        let reached : Bool = elim (getter name) [
          | ok account ↦ leb account.authority.threshold (authorized_weight auth account.authority)
          | err _ ↦ false
        ] in
        (bytes_eq name acct && reached) || rest
    approves (nil_delegate name ds) acct = approves ds acct

  approves_absent :
      (ds : Delegates) (acct : Bytes) → has_delegate acct ds ≡ false → approves ds acct ≡ false
  unfolding has_delegate approves
  approves_absent nobody acct h = refl
  approves_absent (delegate name auth ds) acct h = ground (arith, approves_absent ds acct)
  approves_absent (nil_delegate name ds) acct h = ground (arith, approves_absent ds acct)

  has_account-lookup :
      (a : Authority) (k : Bytes)
      → has_account a k ≡ true
      → lookup k a.account_weights ≡ some (get_account_weight a k)
  unfolding has_account get_account_weight
  has_account-lookup a k h = ground arith

  -- A delegated authorization for an account that the authority does not name weighs nothing.
  skip_delegate :
      (a : Authority) (name : Bytes) (auth : Authorization) (ds : Delegates)
      → has_account a name ≡ false
      → weight_where (approves (delegate name auth ds)) a.account_weights
        ≡ weight_where (approves ds) a.account_weights
  unfolding has_account approves
  skip_delegate a name auth ds h =
      weight_where-cong (approves (delegate name auth ds)) (approves ds) a.account_weights
        (λ k known. ground (arith, eq_iff name k))

  -- One that it names adds the account's weight if the account reaches its threshold.
  take_delegate :
      (a : Authority) (name : Bytes) (auth : Authorization) (ds : Delegates) (account : Account)
      (total weight total' : ℕ)
      → IsAuthority a
      → has_delegate name ds ≡ false
      → has_account a name ≡ true
      → getter name ≡ ok account
      → weight ≡ authorized_weight auth account.authority
      → total ≤ max_u64
      → count_delegate c message a name account total weight ≡ ok total'
      → (total' + weight_where (approves ds) a.account_weights
          ≡ total + weight_where (approves (delegate name auth ds)) a.account_weights)
        × (total' ≤ max_u64)
  unfolding count_delegate approves get_account_weight
  take_delegate a name auth ds account total weight total' go fresh known e f b h =
      elim (Bool-cases (ltb weight account.authority.threshold)) [
        | inl short ↦ (
          ground (
            arith,
            weight_where-cong (approves (delegate name auth ds)) (approves ds) a.account_weights
                (λ k _. ground arith),
          ),
          ground arith,
        )
        | inr enough ↦
            let bound = get_or-le a.account_weights name go.accounts_word in
            let sum : (total' ≡ total + get_account_weight a name) × (total' ≤ max_u64) =
              ground (arith, bound, add_u64-eq total (get_account_weight a name)) in
            (
              omega (
                arith,
                sum.0,
                weight_where_add (approves ds) (approves (delegate name auth ds)) name
                    (get_account_weight a name) a.account_weights go.accounts_distinct
                    (has_account-lookup a name known) (approves_absent ds name fresh)
                    (ground (arith, eq_refl name)) (λ j ne. ground arith),
              ),
              sum.1,
            )
      ]

  module _
      (honest : (name : Bytes) (account : Account)
        → getter name ≡ ok account
        → IsAuthority account.authority) where
    mutual
      unfolding calculate_weight weigh_delegates authorized_weight approves

      pub calculate_weight_sound :
          (auth : Authorization) (name : Bytes) (a : Authority) (visited : Dict Bool) (depth w : ℕ)
          → IsTree auth
          → IsAuthority a
          → calculate_weight c message getter auth name a visited depth ≡ ok w
          → w ≡ authorized_weight auth a
      calculate_weight_sound (authorization ss ds) name a visited depth w tree go h =
          let (t1, e1, h1) = >>=-eq-ok (fail_if (ltb max_recursion depth) _) _ h in
          let (t2, e2, h2) = >>=-eq-ok (fail_if (get_or false (lookup name visited)) _) _ h1 in
          let ((seen, total), e3, h3) = >>=-eq-ok (weigh_signatures c message a ss ([], 0)) _ h2 in
          let direct = weigh_signatures_lem c message a go ss seen total e3 in
          weigh_delegates_sound ds a (insert name true visited) depth total w tree go direct.1 h3
          ∙ ap (λ n. n + weight_where (approves ds) a.account_weights) direct.0

      weigh_delegates_sound :
          (ds : Delegates) (a : Authority) (visited : Dict Bool) (depth total w : ℕ)
          → IsForest ds
          → IsAuthority a
          → total ≤ max_u64
          → weigh_delegates c message getter ds a visited depth total ≡ ok w
          → w ≡ total + weight_where (approves ds) a.account_weights
      weigh_delegates_sound nobody a visited depth total w tree go b h =
          ground (arith, weight_where-none a.account_weights)
      weigh_delegates_sound (nil_delegate name ds) a visited depth total w tree go b h =
          elim (Bool-cases (has_account a name)) [
            | inl known ↦ ground (arith, known)
            | inr unknown ↦
                weigh_delegates_sound ds a visited depth total w tree.1 go b (rw unknown at h)
          ]
      weigh_delegates_sound (delegate name auth ds) a visited depth total w tree go b h =
          elim (Bool-cases (has_account a name)) [
            | inl known ↦
                let h0 = rw known at h in
                let (account, e, h1) = >>=-eq-ok (getter name) _ h0 in
                let (weight, f, h2) =
                  >>=-eq-ok
                    (calculate_weight c message getter auth name account.authority visited
                      (depth + 1))
                    _ h1 in
                let (total', g, h3) =
                  >>=-eq-ok (count_delegate c message a name account total weight) _ h2 in
                let inner =
                  calculate_weight_sound auth name account.authority visited (depth + 1) weight
                    tree.1 (honest name account e) f in
                let (sum, b') =
                  take_delegate a name auth ds account total weight total' go tree.0 known e inner b
                    g in
                weigh_delegates_sound ds a visited depth total' w tree.2 go b' h3 ∙ sum
            | inr unknown ↦
                weigh_delegates_sound ds a visited depth total w tree.2 go b (rw unknown at h)
                ∙ ap (λ n. total + n) (sym (skip_delegate a name auth ds unknown))
          ]
