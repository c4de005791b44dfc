-- ===== src/Types/Authorization/MultiSig.antt =====
-- `VerifyAuthorization` of types/authorization.go on authorizations without delegation.
use punnet_sdk.Base.{
  ℕ, ◌≤◌, ◌≡◌, ◌⊎◌, refl, Bool, true, false, List, [], ◌∷◌, arith, Outcome, ok, max_u64, add_u64-eq,
  All, Bool-cases, inl, inr,
}
use punnet_sdk.Base.Bytes.{Bytes, bytes_eq}
use punnet_sdk.Base.Dict.{Dict, lookup, insert, lookup-insert}
use punnet_sdk.Types.Authority.{Authority, Account, has_key, get_key_weight}
use punnet_sdk.Types.Authority.Totals.{all_weight}
use punnet_sdk.Types.Signature.{Signature, Curves, verify_lem}
use punnet_sdk.Types.Authorization.{
  authorization, calculate_weight, verify_signatures, verify_authorization, nobody, weigh_delegates,
  weigh_signatures, weigh_signature,
}
use punnet_sdk.Types.Authorization.Weight.{weight_where, weight_where-le, weight_where-none}
use punnet_sdk.Types.Authorization.Signed.{
  IsAuthority, signed, marks, weight_where-insert, weigh_signatures_lem,
}
use punnet_sdk.Types.Authorization.Verify.{AllSigned}

-- No key stands twice among the signatures.
abbrev pub UniqueKeys : List Signature → Type 0
UniqueKeys [] = Unit
UniqueKeys (s ∷ ss) = All (λ t. bytes_eq s.pub_key t.pub_key ≡ false) ss × UniqueKeys ss

abbrev Unmarked : Dict Bool → List Signature → Type 0
Unmarked seen = All (λ s. marks seen s.pub_key ≡ false)

Unmarked-insert :
    (k : Bytes) (seen : Dict Bool) (ss : List Signature)
    → All (λ t. bytes_eq k t.pub_key ≡ false) ss
    → Unmarked seen ss
    → Unmarked (insert k true seen) ss
Unmarked-insert k seen [] u f = tt
Unmarked-insert k seen (s ∷ ss) u f =
    (ground (arith, lookup-insert k s.pub_key true seen), Unmarked-insert k seen ss u.1 f.1)

module _ (c : Curves) (message : Bytes) where
  verify_signatures_complete :
      (ss : List Signature) → AllSigned c message ss → verify_signatures c message ss ≡ ok tt
  unfolding verify_signatures
  verify_signatures_complete [] h = refl
  verify_signatures_complete (s ∷ ss) h =
      rw (verify_lem c s message, h.0) (verify_signatures_complete ss h.1)

  module _ (a : Authority) (go : IsAuthority a) (fits : all_weight a ≤ max_u64) where
    -- A round leaves the state alone, or counts the key; the sum of all weights leaves room for it.
    weigh_signature_runs :
        (s : Signature) (seen : Dict Bool)
        → marks seen s.pub_key ≡ false
        → let total = weight_where (marks seen) a.key_weights in
          (weigh_signature c message a s (seen, total) ≡ ok (seen, total))
          ⊎ (weigh_signature c message a s (seen, total)
              ≡ ok (
                insert s.pub_key true seen,
                weight_where (marks (insert s.pub_key true seen)) a.key_weights,
              ))
    unfolding weigh_signature
    weigh_signature_runs s seen fresh =
        let after = insert s.pub_key true seen in
        elim (Bool-cases (has_key a s.pub_key)) [
          | inl known ↦ ground (
            arith,
            verify_lem c s message,
            weight_where-insert c message a go s.pub_key seen fresh known,
            weight_where-le (marks after) a.key_weights,
            add_u64-eq (weight_where (marks seen) a.key_weights) (get_key_weight a s.pub_key),
          )
          | inr unknown ↦ inl (rw (fresh, unknown))
        ]

    weigh_signatures_runs :
        (ss : List Signature) (seen : Dict Bool)
        → UniqueKeys ss
        → Unmarked seen ss
        → (acc : Dict Bool × ℕ) × (weigh_signatures c message a ss
              (seen, weight_where (marks seen) a.key_weights)
            ≡ ok acc)
    unfolding weigh_signatures
    weigh_signatures_runs [] seen u f = ((seen, weight_where (marks seen) a.key_weights), refl)
    weigh_signatures_runs (s ∷ ss) seen u f = elim (weigh_signature_runs s seen f.0) [
      | inl e ↦ rw e (weigh_signatures_runs ss seen u.1 f.1)
      | inr e ↦ rw e (
          weigh_signatures_runs ss (insert s.pub_key true seen) u.1
            (Unmarked-insert s.pub_key seen ss u.0 f.1))
    ]

  Unmarked-nil : (ss : List Signature) → Unmarked [] ss
  unfolding lookup
  Unmarked-nil [] = tt
  Unmarked-nil (s ∷ ss) = (refl, Unmarked-nil ss)

  -- For an account whose authority has each key once with uint64 weights and a uint64 sum of all
  -- weights: valid signatures by different keys whose weights reach its threshold are accepted,
  -- whatever their order.
  pub verify_authorization_complete :
      (getter : Bytes → Outcome Account) (ss : List Signature) (account : Account)
      → IsAuthority account.authority
      → all_weight account.authority ≤ max_u64
      → AllSigned c message ss
      → UniqueKeys ss
      → account.authority.threshold
        ≤ weight_where (signed c message ss) account.authority.key_weights
      → verify_authorization c message getter (authorization ss nobody) account ≡ ok tt
  unfolding verify_authorization calculate_weight weigh_delegates lookup
  verify_authorization_complete getter ss account go fits all unique enough =
      let a = account.authority in
      let ((seen, total), e) = weigh_signatures_runs a go fits ss [] unique (Unmarked-nil ss) in
      let e' : weigh_signatures c message a ss ([], 0) ≡ ok (seen, total) =
        rw (weight_where-none a.key_weights) at e in
      rw (verify_signatures_complete ss all, e')
        (ground (arith, (weigh_signatures_lem c message a go ss seen total e').0))
