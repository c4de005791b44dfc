-- ===== src/Types/Signature.antt =====
-- types/authorization.go: one signature. The curves are Go's standard library and are taken as a
-- parameter, `Curves`. A panic is an error of `Outcome`: it ends the caller too.
use punnet_sdk.Base.{
  ◌≡◌, Bool, false, ◌||◌, ◌&&◌, not, [], length, ◌==◌, if◌then◌else◌, Outcome, ok, err, fail_if,
  ◌>>◌, unsupported_algorithm, invalid_public_key, invalid_signature, panic, arith,
}
use punnet_sdk.Base.Bytes.{Bytes, codes, bytes_eq, eq_iff}

-- `ed25519.Verify`, and what `verifySecp256r1` computes by `crypto/elliptic` and `crypto/ecdsa`: each
-- takes a public key, a message and a signature.
pub record Curves : Type 0 where
  pub ed25519_verify : Bytes → Bytes → Bytes → Bool
  pub verify_secp256r1 : Bytes → Bytes → Bytes → Bool

pub record Signature : Type 0 where
  pub algorithm : Bytes
  pub pub_key : Bytes
  pub signature : Bytes

abbrev pub algorithm_ed25519 : Bytes
algorithm_ed25519 = codes "ed25519"

abbrev pub algorithm_secp256k1 : Bytes
algorithm_secp256k1 = codes "secp256k1"

abbrev pub algorithm_secp256r1 : Bytes
algorithm_secp256r1 = codes "secp256r1"

unfoldable pub is_valid_algorithm : Bytes → Bool
is_valid_algorithm algo = bytes_eq algo algorithm_ed25519 || bytes_eq algo []

unfoldable pub get_algorithm : Signature → Bytes
get_algorithm s = if bytes_eq s.algorithm [] then algorithm_ed25519 else s.algorithm

-- The case of ed25519: `ed25519.PublicKeySize` is 32 and `ed25519.SignatureSize` is 64.
unfoldable pub validate_sizes : Signature → Outcome (Unit {0})
validate_sizes s = do
  fail_if (not (length s.pub_key == 32)) invalid_public_key
  fail_if (not (length s.signature == 64)) invalid_signature

unfoldable pub validate_basic : Signature → Outcome (Unit {0})
unfolding is_valid_algorithm get_algorithm validate_sizes
validate_basic s = do
  fail_if (not (is_valid_algorithm (get_algorithm s))) unsupported_algorithm
  if bytes_eq (get_algorithm s) algorithm_ed25519
      then validate_sizes s
      else err unsupported_algorithm

-- The `switch` of `Verify`; `verifySecp256k1` panics.
unfoldable pub verify_by : Curves → Bytes → Signature → Bytes → Outcome Bool
verify_by c algo s message =
    if bytes_eq algo algorithm_ed25519
    then ok (c.ed25519_verify s.pub_key message s.signature)
    else if bytes_eq algo algorithm_secp256k1
    then err panic
    else if bytes_eq algo algorithm_secp256r1
    then ok (c.verify_secp256r1 s.pub_key message s.signature)
    else ok false

-- `if err := s.ValidateBasic(); err != nil { return false }`
unfoldable pub verify_validated : Curves → Outcome (Unit {0}) → Signature → Bytes → Outcome Bool
unfolding verify_by get_algorithm
verify_validated c (ok _) s message = verify_by c (get_algorithm s) s message
verify_validated c (err _) s message = ok false

unfoldable pub verify : Curves → Signature → Bytes → Outcome Bool
unfolding verify_validated
verify c s message = verify_validated c (validate_basic s) s message

-- What a signature has to be for `Verify` to accept it.
unfoldable pub is_signed : Curves → Signature → Bytes → Bool
is_signed c s message =
    (bytes_eq (get_algorithm s) algorithm_ed25519)
    && (length s.pub_key == 32)
    && (length s.signature == 64)
    && c.ed25519_verify s.pub_key message s.signature

-- `Verify` never panics: it accepts exactly the signatures of the ed25519 algorithm, named or left
-- out, with a key of 32 bytes and a signature of 64 bytes that the curve accepts.
pub verify_lem :
    (c : Curves) (s : Signature) (message : Bytes) → verify c s message ≡ ok (is_signed c s message)
unfolding verify validate_basic is_signed
verify_lem c s message = ground (arith, eq_iff (get_algorithm s) [])
