-- ===== src/Types/Authorization/Signed.antt =====
-- The direct signatures: what the loop over them has added.
use punnet_sdk.Base.{
  ℕ, ◌+◌, ◌≤◌, ◌≡◌, ◌⊎◌, refl, Bool, true, false, ◌&&◌, ◌||◌, List, [], ◌∷◌, some, arith, ok,
  add_u64-eq, max_u64, inl, inr, >>=-eq-ok,
}
use punnet_sdk.Base.Bytes.{Bytes, bytes_eq, eq_iff, eq_refl}
use punnet_sdk.Base.Dict.{Dict, lookup, insert, Distinct, get_or, lookup-insert}
use punnet_sdk.Types.Authority.{Authority, has_key, get_key_weight}
use punnet_sdk.Types.Authority.Totals.{Words}
use punnet_sdk.Types.Signature.{Signature, Curves, is_signed, verify_lem}
use punnet_sdk.Types.Authorization.{weigh_signature, weigh_signatures}
use punnet_sdk.Types.Authorization.Weight.{
  weight_where, weight_where-cong, weight_where-none, weight_where_add,
}

-- A Go value: each map has a key once, and the weights are uint64.
pub record IsAuthority (a : Authority) : Type 0 where
  pub keys_distinct : Distinct a.key_weights
  pub accounts_distinct : Distinct a.account_weights
  pub keys_word : Words a.key_weights
  pub accounts_word : Words a.account_weights

pub get_or-le : (m : Dict ℕ) (k : Bytes) → Words m → get_or 0 (lookup k m) ≤ max_u64
unfolding lookup
get_or-le [] k u = omega arith
get_or-le ((j, w) ∷ m) k u = ground (arith, get_or-le m k u.1)

-- `seen[k]`
abbrev pub marks : Dict Bool → Bytes → Bool
marks seen k = get_or false (lookup k seen)

module _ (c : Curves) (message : Bytes) where
  -- One of the signatures is by the key `k` and is accepted.
  unfoldable pub signed : List Signature → Bytes → Bool
  signed [] k = false
  signed (s ∷ ss) k = (bytes_eq s.pub_key k && is_signed c s message) || signed ss k

  module _ (a : Authority) (go : IsAuthority a) where
    -- What one or more rounds of the loop have done.
    abbrev Adds : (Bytes → Bool) → Dict Bool × ℕ → Dict Bool × ℕ → Type 0
    Adds new (seen, total) (seen', total') =
        (total' + weight_where (marks seen) a.key_weights
          ≡ total + weight_where (marks seen') a.key_weights)
        × ((k : Bytes) → has_key a k ≡ true → marks seen' k ≡ (marks seen k || new k))

    has_key-lookup :
        (k : Bytes) → has_key a k ≡ true → lookup k a.key_weights ≡ some (get_key_weight a k)
    unfolding has_key get_key_weight
    has_key-lookup k h = ground arith

    -- Marking a key of the authority that was not marked adds its weight to that of the marked keys.
    pub weight_where-insert :
        (k : Bytes) (seen : Dict Bool)
        → marks seen k ≡ false
        → has_key a k ≡ true
        → weight_where (marks (insert k true seen)) a.key_weights
          ≡ weight_where (marks seen) a.key_weights + get_key_weight a k
    weight_where-insert k seen fresh known =
        weight_where_add (marks seen) (marks (insert k true seen)) k (get_key_weight a k)
          a.key_weights go.keys_distinct (has_key-lookup k known) fresh
          (ground (arith, lookup-insert k k true seen, eq_refl k))
          (λ j ne. ground (arith, lookup-insert k j true seen))

    -- A round that counts nothing, or that counts a key not seen before.
    weigh_signature_cases :
        (s : Signature) (seen seen' : Dict Bool) (total total' : ℕ)
        → total ≤ max_u64
        → weigh_signature c message a s (seen, total) ≡ ok (seen', total')
        → ((seen' ≡ seen)
            × (total' ≡ total)
            × ((has_key a s.pub_key ≡ false) ⊎ (is_signed c s message ≡ false)))
          ⊎ ((marks seen s.pub_key ≡ false)
              × (has_key a s.pub_key ≡ true)
              × (is_signed c s message ≡ true)
              × (seen' ≡ insert s.pub_key true seen)
              × (total' ≡ total + get_key_weight a s.pub_key)
              × (total' ≤ max_u64))
    unfolding weigh_signature get_key_weight
    weigh_signature_cases s seen seen' total total' b h = ground (
      arith,
      verify_lem c s message,
      get_or-le a.key_weights s.pub_key go.keys_word,
      add_u64-eq total (get_or 0 (lookup s.pub_key a.key_weights)),
    )

    weigh_signature-Adds :
        (s : Signature) (seen seen' : Dict Bool) (total total' : ℕ)
        → total ≤ max_u64
        → weigh_signature c message a s (seen, total) ≡ ok (seen', total')
        → Adds (λ k. bytes_eq s.pub_key k && is_signed c s message) (seen, total) (seen', total')
          × (total' ≤ max_u64)
    weigh_signature-Adds s seen seen' total total' b h =
        elim (weigh_signature_cases s seen seen' total total' b h) [
          | inl (e, f, idle) ↦ rw (e, f) ((refl, λ k known. ground (arith, eq_iff s.pub_key k)), b)
          | inr (fresh, known, valid, e, f, b') ↦
              let set = λ (k : Bytes). lookup-insert s.pub_key k true seen in
              rw (e, f)
                (
                  (
                    omega (arith, weight_where-insert s.pub_key seen fresh known),
                    λ k known'. ground (arith, set k, eq_iff s.pub_key k),
                  ),
                  rw (← f) b',
                )
        ]

    weigh_signatures-Adds :
        (ss : List Signature) (seen seen' : Dict Bool) (total total' : ℕ)
        → total ≤ max_u64
        → weigh_signatures c message a ss (seen, total) ≡ ok (seen', total')
        → Adds (signed ss) (seen, total) (seen', total') × (total' ≤ max_u64)
    unfolding weigh_signatures signed
    weigh_signatures-Adds [] seen seen' total total' b h =
        ((ground arith, λ k known. ground arith), ground arith)
    weigh_signatures-Adds (s ∷ ss) seen seen' total total' b h =
        let ((mid, sum), first, rest) =
          >>=-eq-ok (weigh_signature c message a s (seen, total)) _ h in
        let (one, b') = weigh_signature-Adds s seen mid total sum b first in
        let (more, b'') = weigh_signatures-Adds ss mid seen' sum total' b' rest in
        ((omega (arith, one.0, more.0), λ k known. ground (arith, one.1 k, more.1 k)), b'')

    -- The loop adds up the weights of exactly those keys of the authority that have signed.
    pub weigh_signatures_lem :
        (ss : List Signature) (seen : Dict Bool) (total : ℕ)
        → weigh_signatures c message a ss ([], 0) ≡ ok (seen, total)
        → (total ≡ weight_where (signed ss) a.key_weights) × (total ≤ max_u64)
    unfolding has_key lookup
    weigh_signatures_lem ss seen total h =
        let (adds, b) = weigh_signatures-Adds ss [] seen 0 total (omega arith) h in
        (
          omega (
            arith,
            adds.0,
            weight_where-cong (marks seen) (signed ss) a.key_weights
                (λ k known. ground (arith, adds.1 k known)),
            weight_where-none a.key_weights,
          ),
          b,
        )
