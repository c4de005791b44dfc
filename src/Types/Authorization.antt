-- ===== src/Types/Authorization.antt =====
-- types/authorization.go: the tree of authorizations and its weight. The account getter is a
-- function; it answers the same to the same name for the length of one verification.
pub mod Weight
pub mod Signed
pub mod Threshold
pub mod Verify
pub mod MultiSig
use punnet_sdk.Base.{
  ℕ, ◌-◌, ◌+◌, Bool, true, false, not, List, [], ◌∷◌, ltb, leb, if◌then◌else◌, Outcome, ok, err,
  fail_if, ◌>>=◌, ◌>>◌, max_u64, add_u64, invalid_authorization, invalid_signature, nil_dereference,
  max_recursion_depth, authorization_cycle, duplicate_signature, weight_overflow,
  insufficient_weight,
}
use punnet_sdk.Base.Bytes.{Bytes, bytes_eq}
use punnet_sdk.Base.Dict.{Dict, lookup, insert, remove, get_or}
use punnet_sdk.Types.AccountName
use punnet_sdk.Types.Authority.{
  Authority, Account, has_key, get_key_weight, has_account, get_account_weight,
}
use punnet_sdk.Types.Signature
use punnet_sdk.Types.Signature.{Signature, Curves, verify}

abbrev pub max_recursion : ℕ
max_recursion = 10

-- `Authorization` and its map `AccountAuthorizations`, whose values may be nil.
mutual
  pub data Authorization : Type 0 where
    authorization : List Signature → Delegates → Authorization

  pub data Delegates : Type 0 where
    nobody : Delegates
    delegate : Bytes → Authorization → Delegates → Delegates
    nil_delegate : Bytes → Delegates → Delegates

unfoldable pub validate_signatures : List Signature → Outcome (Unit {0})
validate_signatures [] = ok tt
validate_signatures (s ∷ ss) = elim (Signature.validate_basic s) [
  | ok _ ↦ validate_signatures ss
  | err _ ↦ err invalid_authorization
]

unfoldable mutual
  unfolding validate_signatures

  pub validate_basic : Authorization → Outcome (Unit {0})
  validate_basic (authorization ss ds) = do validate_signatures ss; validate_delegates ds

  pub validate_delegates : Delegates → Outcome (Unit {0})
  validate_delegates nobody = ok tt
  validate_delegates (delegate acct auth ds) =
      let inner = validate_basic auth in
      let rest = validate_delegates ds in
      if not (AccountName.is_valid acct)
      then err invalid_authorization
      else elim inner [ ok _ ↦ rest | err _ ↦ err invalid_authorization ]
  validate_delegates (nil_delegate acct ds) = err invalid_authorization

module _ (c : Curves) (message : Bytes) where
  unfoldable pub verify_signatures : List Signature → Outcome (Unit {0})
  verify_signatures [] = ok tt
  verify_signatures (s ∷ ss) = do
    valid ← verify c s message
    fail_if (not valid) invalid_signature
    verify_signatures ss

  -- One round of the loop over the direct signatures, behind the test for a repeated key: the new
  -- `seenPubKeys` and the new total.
  unfoldable pub count_signature :
      Authority → Signature → Dict Bool × ℕ → Bool → Outcome (Dict Bool × ℕ)
  unfolding add_u64
  count_signature authority s (seen, total) valid =
      let key_weight = get_key_weight authority s.pub_key in
      if not valid
      then ok (seen, total)
      else if ltb (max_u64 - key_weight) total
      then err weight_overflow
      else ok (insert s.pub_key true seen, add_u64 total key_weight)

  unfoldable pub weigh_signature : Authority → Signature → Dict Bool × ℕ → Outcome (Dict Bool × ℕ)
  unfolding count_signature
  weigh_signature authority s (seen, total) =
      if get_or false (lookup s.pub_key seen)
      then err duplicate_signature
      else if has_key authority s.pub_key
      then verify c s message >>= count_signature authority s (seen, total)
      else ok (seen, total)

  unfoldable pub weigh_signatures :
      Authority → List Signature → Dict Bool × ℕ → Outcome (Dict Bool × ℕ)
  unfolding weigh_signature
  weigh_signatures authority [] acc = ok acc
  weigh_signatures authority (s ∷ ss) acc =
      weigh_signature authority s acc >>= weigh_signatures authority ss

  -- What the loop over the delegated accounts does with the weight of one of them.
  unfoldable pub count_delegate : Authority → Bytes → Account → ℕ → ℕ → Outcome ℕ
  unfolding add_u64
  count_delegate authority acct account total delegated_weight =
      let account_weight = get_account_weight authority acct in
      if ltb delegated_weight account.authority.threshold
      then ok total
      else if ltb (max_u64 - account_weight) total
      then err weight_overflow
      else ok (add_u64 total account_weight)

  module _ (getter : Bytes → Outcome Account) where
    unfoldable mutual
      unfolding weigh_signatures count_delegate

      -- `visited` holds the accounts on the way to this one: the deferred `delete` takes the name
      -- out again, so that the map is at the end what it was at the start.
      pub calculate_weight : Authorization → Bytes → Authority → Dict Bool → ℕ → Outcome ℕ
      calculate_weight (authorization ss ds) account_name authority visited depth = do
        fail_if (ltb max_recursion depth) max_recursion_depth
        fail_if (get_or false (lookup account_name visited)) authorization_cycle
        (seen, total) ← weigh_signatures authority ss ([], 0)
        weigh_delegates ds authority (insert account_name true visited) depth total

      -- The method called on a nil authorization fails at the first field that it reads.
      pub weigh_delegates : Delegates → Authority → Dict Bool → ℕ → ℕ → Outcome ℕ
      weigh_delegates nobody authority visited depth total = ok total
      weigh_delegates (delegate acct auth ds) authority visited depth total =
          if not (has_account authority acct)
          then weigh_delegates ds authority visited depth total
          else do
            account ← getter acct
            weight ← calculate_weight auth acct account.authority visited (depth + 1)
            total' ← count_delegate authority acct account total weight
            weigh_delegates ds authority visited depth total'
      weigh_delegates (nil_delegate acct ds) authority visited depth total =
          if not (has_account authority acct)
          then weigh_delegates ds authority visited depth total
          else do
            account ← getter acct
            fail_if (ltb max_recursion (depth + 1)) max_recursion_depth
            fail_if (get_or false (lookup acct visited)) authorization_cycle
            err nil_dereference

    unfoldable pub verify_authorization : Authorization → Account → Outcome (Unit {0})
    unfolding verify_signatures
    verify_authorization (authorization ss ds) account = do
      verify_signatures ss
      weight ← calculate_weight (authorization ss ds) account.name account.authority [] 0
      fail_if (ltb weight account.authority.threshold) insufficient_weight

  -- `GetSignedPubKeys`
  unfoldable pub get_signed_pub_keys : List Signature → Outcome (List Bytes)
  get_signed_pub_keys [] = ok []
  get_signed_pub_keys (s ∷ ss) = do
    valid ← verify c s message
    keys ← get_signed_pub_keys ss
    ok (if valid then s.pub_key ∷ keys else keys)

  -- `HasSignatureFrom`: the first signature with the key decides.
  unfoldable pub has_signature_from : Bytes → List Signature → Outcome Bool
  has_signature_from pub_key [] = ok false
  has_signature_from pub_key (s ∷ ss) =
      let rest = has_signature_from pub_key ss in
      if bytes_eq s.pub_key pub_key then verify c s message else rest

  -- `CountValidSignatures`
  unfoldable pub count_valid_signatures : List Signature → Outcome ℕ
  count_valid_signatures [] = ok 0
  count_valid_signatures (s ∷ ss) = do
    valid ← verify c s message
    count ← count_valid_signatures ss
    ok (if valid then count + 1 else count)
