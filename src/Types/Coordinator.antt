-- ===== src/Types/Coordinator.antt =====
-- types/multisign.go: the coordinator that collects the signatures on one sign document. The document is
-- given by its sign bytes, or the error of making them; a public key and a signer are the interfaces of
-- crypto/keys.go and crypto/signer.go, as parameters.
pub mod Collected
use punnet_sdk.Base.{
  ℕ, Bool, true, false, not, List, [], ◌∷◌, ◌++◌, length, if◌then◌else◌, Outcome, ok, err, fail_if,
  ◌>>=◌, ◌>>◌, invalid_signature, duplicate_signature,
}
use punnet_sdk.Base.Bytes.{Bytes, bytes_eq}
use punnet_sdk.Types.Signature
use punnet_sdk.Types.Signature.{Signature}
use punnet_sdk.Types.Authorization.{Authorization, authorization, nobody}

-- `crypto.PublicKey`
pub record PublicKey : Type 0 where
  pub key_bytes : Bytes
  pub key_algorithm : Bytes
  pub key_verify : Bytes → Bytes → Bool

-- `crypto.Signer`
pub record Signer : Type 0 where
  pub signer_algorithm : Bytes
  pub public_key : Bytes
  pub sign : Bytes → Outcome Bytes

pub record MultiSignCoordinator : Type 0 where
  pub sign_bytes : Outcome Bytes
  pub signatures : List Signature

-- A call returns its error, or none, with the coordinator that it leaves.
abbrev pub Step : Type 0
Step = Outcome (Unit {0}) × MultiSignCoordinator

unfoldable pub new_coordinator : Outcome Bytes → MultiSignCoordinator
new_coordinator sign_bytes = record { sign_bytes = sign_bytes; signatures = [] }

-- The loop that looks for a signature by the same key.
unfoldable pub has_signature_by : Bytes → List Signature → Bool
has_signature_by k [] = false
has_signature_by k (s ∷ ss) =
    let rest = has_signature_by k ss in if bytes_eq s.pub_key k then true else rest

abbrev pub add_valid : MultiSignCoordinator → Signature → Outcome (Unit {0}) → Step
add_valid c s (err e) = (err e, c)
add_valid c s (ok _) =
    if has_signature_by s.pub_key c.signatures
    then (err duplicate_signature, c)
    else (ok tt, record c { signatures = c.signatures ++ s ∷ [] })

unfoldable pub add_signature : MultiSignCoordinator → Signature → Step
unfolding has_signature_by
add_signature c s = add_valid c s (Signature.validate_basic s)

abbrev pub add_signed : MultiSignCoordinator → Signer → Outcome Bytes → Step
add_signed c signer (err e) = (err e, c)
add_signed c signer (ok sig) =
    add_signature c
      (record { algorithm = signer.signer_algorithm; pub_key = signer.public_key; signature = sig })

abbrev pub sign_message : MultiSignCoordinator → Signer → Outcome Bytes → Step
sign_message c signer (err e) = (err e, c)
sign_message c signer (ok message) = add_signed c signer (signer.sign message)

unfoldable pub sign_with_signer : MultiSignCoordinator → Signer → Step
sign_with_signer c signer = sign_message c signer c.sign_bytes

abbrev pub import_verified : MultiSignCoordinator → PublicKey → Bytes → Outcome Bytes → Step
import_verified c pk sig (err e) = (err e, c)
import_verified c pk sig (ok message) =
    if not (pk.key_verify message sig)
    then (err invalid_signature, c)
    else add_signature c
        (record { algorithm = pk.key_algorithm; pub_key = pk.key_bytes; signature = sig })

unfoldable pub import_signature : MultiSignCoordinator → PublicKey → Bytes → Step
import_signature c pk sig = import_verified c pk sig c.sign_bytes

unfoldable pub count : MultiSignCoordinator → ℕ
count c = length c.signatures

unfoldable pub complete : MultiSignCoordinator → Authorization
complete c = authorization c.signatures nobody

unfoldable pub reset : MultiSignCoordinator → MultiSignCoordinator
reset c = record c { signatures = [] }
