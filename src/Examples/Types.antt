-- ===== src/Examples/Types.antt =====
-- Two wallets of coins, and an account of two keys that also listens to bob.
use punnet_sdk.Base.{
  ℕ, ◌+◌, ◌≤◌, ◌≡◌, ◌↔◌, refl, subst, true, false, not, List, [], ◌∷◌, Outcome, ok, err, arith, All,
  max_u64, add_u64,
}
use punnet_sdk.Base.Bytes.{Bytes, codes, bytes_eq, bytes_lt}
use punnet_sdk.Base.Dict.{lookup, insert}
use punnet_sdk.Types.Coin
use punnet_sdk.Types.Coin.{Coin}
use punnet_sdk.Types.Coins
use punnet_sdk.Types.Coins.{Coins, amount_of, add, sub}
use punnet_sdk.Types.Coins.Order
use punnet_sdk.Types.Coins.Order.{is_valid_iff}
use punnet_sdk.Types.Coins.Add.{amount_of-add, add-IsValid, saturated}
use punnet_sdk.Types.Coins.Sub.{Subtraction, sub_lem}
use punnet_sdk.Types.AccountName
use punnet_sdk.Types.Authority
use punnet_sdk.Types.Authority.{Authority, Account, total_possible_weight}
use punnet_sdk.Types.Authority.Totals
use punnet_sdk.Types.Authority.Totals.{all_weight, validate_basic_iff, total_possible_weight_lem}
use punnet_sdk.Types.Signature
use punnet_sdk.Types.Signature.{Curves, Signature, verify, is_signed, verify_lem, get_algorithm}
use punnet_sdk.Types.Authorization.{
  Authorization, authorization, delegate, nobody, calculate_weight, verify_authorization,
  weigh_delegates, weigh_signatures, weigh_signature, count_signature, count_delegate,
  verify_signatures,
}
use punnet_sdk.Types.Authorization.Signed.{IsAuthority, signed}
use punnet_sdk.Types.Authorization.Weight.{weight_where}
use punnet_sdk.Types.Authorization.Threshold.{IsTree, has_delegate, authorized_weight}
use punnet_sdk.Types.Authorization.Verify.{
  IsHonest, AuthorizationSigned, AllSigned, calculate_weight_lem, verify_authorization_sound,
}
use punnet_sdk.Types.Authorization.MultiSig.{UniqueKeys, verify_authorization_complete}

abbrev coin : Bytes → ℕ → Coin
coin denom amount = record { denom = denom; amount = amount }

abbrev wallet : Coins
wallet = coin (codes "atom") 5 ∷ coin (codes "ion") 3 ∷ []

abbrev full : Coins
full = coin (codes "ion") max_u64 ∷ coin (codes "osmo") 1 ∷ []

wallet-IsValid : Order.IsValid wallet
unfolding Coin.is_valid bytes_lt bytes_eq
wallet-IsValid = ((refl, (refl, tt)), ((refl, tt), (tt, tt)))

full-IsValid : Order.IsValid full
unfolding Coin.is_valid bytes_lt bytes_eq
full-IsValid = ((refl, (refl, tt)), ((refl, tt), (tt, tt)))

is_valid_iff_example : (Coins.is_valid wallet ≡ true) ↔ Order.IsValid wallet
is_valid_iff_example = is_valid_iff wallet

amount_of-add_example :
    amount_of (add wallet full) (codes "ion")
    ≡ saturated (amount_of wallet (codes "ion") + amount_of full (codes "ion"))
amount_of-add_example =
    amount_of-add wallet full wallet-IsValid full-IsValid (omega arith, (omega arith, tt))
      (omega arith, (omega arith, tt)) (codes "ion")

add-IsValid_example :
    Order.IsValid (add wallet full) × All (λ c. Coin.is_positive c ≡ true) (add wallet full)
add-IsValid_example = add-IsValid wallet full wallet-IsValid full-IsValid

sub_lem_example : Subtraction wallet full (sub wallet full)
sub_lem_example = sub_lem wallet full wallet-IsValid full-IsValid

abbrev pub curves : Curves
curves = record { ed25519_verify = λ k m s. not (bytes_eq m []); verify_secp256r1 = λ k m s. false }

abbrev pub key1 : Bytes
key1 = codes "11111111111111111111111111111111"

abbrev pub key2 : Bytes
key2 = codes "22222222222222222222222222222222"

abbrev key3 : Bytes
key3 = codes "33333333333333333333333333333333"

abbrev pub signature_by : Bytes → Signature
signature_by k = record {
  algorithm = [];
  pub_key = k;
  signature = codes "0123456789012345678901234567890123456789012345678901234567890123";
}

abbrev account_of : Bytes → Authority → Account
account_of name authority = record {
  name = name;
  authority = authority;
  nonce = 0;
  created_at = 0;
  updated_at = 0;
}

abbrev pub alice : Account
alice = account_of (codes "alice") (record {
  threshold = 2;
  key_weights = (key1, 1) ∷ (key2, 1) ∷ [];
  account_weights = (codes "bob", 1) ∷ [];
})

abbrev bob : Account
bob =
    account_of (codes "bob")
      (record { threshold = 1; key_weights = (key3, 1) ∷ []; account_weights = [] })

pub alice-IsAuthority : IsAuthority alice.authority
unfolding lookup bytes_eq
alice-IsAuthority = record {
  keys_distinct = (refl, (refl, tt));
  accounts_distinct = (refl, tt);
  keys_word = (omega arith, (omega arith, tt));
  accounts_word = (omega arith, tt);
}

bob-IsAuthority : IsAuthority bob.authority
unfolding lookup bytes_eq
bob-IsAuthority = record {
  keys_distinct = (refl, tt);
  accounts_distinct = tt;
  keys_word = (omega arith, tt);
  accounts_word = tt;
}

validate_basic_iff_example :
    (Authority.validate_basic alice.authority ≡ ok tt) ↔ Totals.IsValid alice.authority
validate_basic_iff_example =
    validate_basic_iff alice.authority ((omega arith, (omega arith, tt)), (omega arith, tt))

alice-valid : Authority.validate_basic alice.authority ≡ ok tt
unfolding Authority.validate_basic Authority.add_weights Authority.check_names AccountName.is_valid
    AccountName.all_name_chars AccountName.is_name_char
alice-valid = refl

total_possible_weight_lem_example :
    (total_possible_weight alice.authority ≡ all_weight alice.authority)
    × (2 ≤ total_possible_weight alice.authority)
total_possible_weight_lem_example =
    total_possible_weight_lem alice.authority ((omega arith, (omega arith, tt)), (omega arith, tt))
      alice-valid

abbrev pub message : Bytes
message = codes "pay"

verify_lem_example :
    verify curves (signature_by key1) message ≡ ok (is_signed curves (signature_by key1) message)
verify_lem_example = verify_lem curves (signature_by key1) message

abbrev pub getter : Bytes → Outcome Account
getter name = ok bob

abbrev authority_of : Outcome Account → Authority
authority_of (ok account) = account.authority
authority_of (err e) = bob.authority

getter-IsHonest : IsHonest curves message getter
getter-IsHonest name account e = subst (λ r. IsAuthority (authority_of r)) e bob-IsAuthority

-- Alice's first key signs, and bob approves by his key.
abbrev by_both : Authorization
by_both =
    authorization (signature_by key1 ∷ [])
      (delegate (codes "bob") (authorization (signature_by key3 ∷ []) nobody) nobody)

by_both-weighs :
    calculate_weight curves message getter by_both (codes "alice") alice.authority [] 0 ≡ ok 2
unfolding calculate_weight weigh_delegates weigh_signatures weigh_signature count_signature
    count_delegate verify Signature.verify_validated Signature.verify_by Signature.validate_basic
    Signature.validate_sizes Signature.is_valid_algorithm get_algorithm Authority.has_key
    Authority.get_key_weight Authority.has_account Authority.get_account_weight lookup insert
    bytes_eq add_u64
by_both-weighs = refl

by_both-IsTree : IsTree by_both
unfolding has_delegate
by_both-IsTree = (refl, tt, tt)

calculate_weight_lem_example :
    (2 ≡ authorized_weight curves message getter by_both alice.authority)
    × (2 ≤ all_weight alice.authority)
calculate_weight_lem_example =
    calculate_weight_lem curves message getter by_both (codes "alice") alice.authority [] 0 2
      getter-IsHonest by_both-IsTree alice-IsAuthority by_both-weighs

by_both-accepted : verify_authorization curves message getter by_both alice ≡ ok tt
unfolding calculate_weight weigh_delegates weigh_signatures weigh_signature count_signature
    count_delegate verify Signature.verify_validated Signature.verify_by Signature.validate_basic
    Signature.validate_sizes Signature.is_valid_algorithm get_algorithm Authority.has_key
    Authority.get_key_weight Authority.has_account Authority.get_account_weight lookup insert
    bytes_eq add_u64 verify_authorization verify_signatures
by_both-accepted = refl

verify_authorization-sound_example :
    AuthorizationSigned curves message by_both
    × (2 ≤ authorized_weight curves message getter by_both alice.authority)
verify_authorization-sound_example =
    verify_authorization_sound curves message getter by_both alice getter-IsHonest by_both-IsTree
      alice-IsAuthority by_both-accepted

abbrev two_keys : List Signature
two_keys = signature_by key2 ∷ signature_by key1 ∷ []

two_keys-signed : AllSigned curves message two_keys
unfolding is_signed get_algorithm bytes_eq
two_keys-signed = (refl, (refl, tt))

two_keys-UniqueKeys : UniqueKeys two_keys
unfolding bytes_eq
two_keys-UniqueKeys = ((refl, tt), (tt, tt))

two_keys-suffice : 2 ≤ weight_where (signed curves message two_keys) alice.authority.key_weights
unfolding weight_where signed is_signed get_algorithm bytes_eq
two_keys-suffice = omega arith

verify_authorization-complete_example :
    verify_authorization curves message getter (authorization two_keys nobody) alice ≡ ok tt
verify_authorization-complete_example =
    verify_authorization_complete curves message getter two_keys alice alice-IsAuthority
      (omega arith) two_keys-signed two_keys-UniqueKeys two_keys-suffice
