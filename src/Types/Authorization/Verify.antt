-- ===== src/Types/Authorization/Verify.antt =====
-- `VerifyAuthorization` and the listings of valid signatures.
use punnet_sdk.Base.{
  ℕ, ◌≤◌, ◌≡◌, refl, Bool, true, List, [], ◌∷◌, arith, length, if◌then◌else◌, Outcome, ok, All,
  >>=-eq-ok,
}
use punnet_sdk.Base.Bytes.{Bytes}
use punnet_sdk.Base.Dict.{Dict}
use punnet_sdk.Types.Authority.{Authority, Account}
use punnet_sdk.Types.Authority.Totals.{all_weight}
use punnet_sdk.Types.Signature.{Signature, Curves, is_signed, verify_lem}
use punnet_sdk.Types.Authorization.{
  Authorization, authorization, calculate_weight, verify_signatures, verify_authorization,
  get_signed_pub_keys, count_valid_signatures,
}
use punnet_sdk.Types.Authorization.Weight.{weight_where-le}
use punnet_sdk.Types.Authorization.Signed.{IsAuthority, signed}
use punnet_sdk.Types.Authorization.Threshold.{
  IsTree, authorized_weight, approves, calculate_weight_sound,
}

module _ (c : Curves) (message : Bytes) where
  -- Every direct signature is accepted.
  abbrev pub AllSigned : List Signature → Type 0
  AllSigned = All (λ s. is_signed c s message ≡ true)

  abbrev pub AuthorizationSigned : Authorization → Type 0
  AuthorizationSigned (authorization ss ds) = AllSigned ss

  verify_signatures_sound :
      (ss : List Signature) → verify_signatures c message ss ≡ ok tt → AllSigned ss
  unfolding verify_signatures
  verify_signatures_sound [] h = tt
  verify_signatures_sound (s ∷ ss) h =
      ground (arith, verify_lem c s message, verify_signatures_sound ss)

  abbrev pub accepted_keys : List Signature → List Bytes
  accepted_keys [] = []
  accepted_keys (s ∷ ss) =
      if is_signed c s message then s.pub_key ∷ accepted_keys ss else accepted_keys ss

  module _ (getter : Bytes → Outcome Account) where
    -- The accounts that the getter returns hold Go values.
    abbrev pub IsHonest : Type 0
    IsHonest =
        (name : Bytes) (account : Account)
        → getter name ≡ ok account
        → IsAuthority account.authority

    authorized_weight-le :
        (auth : Authorization) (a : Authority)
        → authorized_weight c message getter auth a ≤ all_weight a
    unfolding authorized_weight
    authorized_weight-le (authorization ss ds) a = omega (
      arith,
      weight_where-le (signed c message ss) a.key_weights,
      weight_where-le (approves c message getter ds) a.account_weights,
    )

    -- For authorities whose maps have each key once with uint64 weights, those of the accounts
    -- that the getter returns included, and a tree of authorizations whose maps have each name
    -- once: a weight that the code computes, at any depth and with any accounts visited, is the
    -- weight of the keys that have signed and of the accounts that approve, each once, and so
    -- never above the sum of all weights of the authority.
    pub calculate_weight_lem :
        (auth : Authorization) (name : Bytes) (a : Authority) (visited : Dict Bool) (depth w : ℕ)
        → IsHonest
        → IsTree auth
        → IsAuthority a
        → calculate_weight c message getter auth name a visited depth ≡ ok w
        → (w ≡ authorized_weight c message getter auth a) × (w ≤ all_weight a)
    calculate_weight_lem auth name a visited depth w honest tree go h =
        let e =
          calculate_weight_sound c message getter honest auth name a visited depth w tree go h in
        (e, omega (arith, e, authorized_weight-le auth a))

    -- For authorities whose maps have each key once with uint64 weights, those of the accounts
    -- that the getter returns included, and a tree of authorizations whose maps have each name
    -- once: an accepted authorization carries valid direct signatures only, and the weights of the
    -- keys that have signed and of the accounts that approve, each once, reach the account's
    -- threshold.
    pub verify_authorization_sound :
        (auth : Authorization) (account : Account)
        → IsHonest
        → IsTree auth
        → IsAuthority account.authority
        → verify_authorization c message getter auth account ≡ ok tt
        → AuthorizationSigned auth
          × (account.authority.threshold
              ≤ authorized_weight c message getter auth account.authority)
    unfolding verify_authorization
    verify_authorization_sound (authorization ss ds) account honest tree go h =
        let auth = authorization ss ds in
        let (t, e, h1) = >>=-eq-ok (verify_signatures c message ss) _ h in
        let (w, f, h2) =
          >>=-eq-ok (calculate_weight c message getter auth account.name account.authority [] 0) _
            h1 in
        (
          verify_signatures_sound ss e,
          ground (
            arith,
            calculate_weight_sound c message getter honest auth account.name account.authority [] 0
                w tree go f,
          ),
        )

  -- Listing and counting end without a panic, with as many keys as are counted, which are the keys of
  -- the signatures that are accepted.
  abbrev pub IsCounted : List Signature → Type 0
  IsCounted ss =
      (keys : List Bytes) × (get_signed_pub_keys c message ss ≡ ok keys)
      × (count_valid_signatures c message ss ≡ ok (length keys))
      × (keys ≡ accepted_keys ss)

  -- `GetSignedPubKeys` and `CountValidSignatures` never panic: the first lists the keys of the
  -- accepted signatures in their order, and the second returns how many it lists.
  count_valid_signatures_lem : (ss : List Signature) → IsCounted ss
  unfolding get_signed_pub_keys count_valid_signatures
  count_valid_signatures_lem [] = ([], refl, refl, refl)
  count_valid_signatures_lem (s ∷ ss) =
      let (keys, e, f, g) = count_valid_signatures_lem ss in
      (
        if is_signed c s message then s.pub_key ∷ keys else keys,
        ground (arith, verify_lem c s message),
        ground (arith, verify_lem c s message),
        ground (arith, g),
      )
