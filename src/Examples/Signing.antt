-- ===== src/Examples/Signing.antt =====
-- The signatures of two keys that a coordinator collects.
use punnet_sdk.Base.{◌≡◌, refl, ◌≤◌, List, [], ◌∷◌, ok, arith, All}
use punnet_sdk.Base.Bytes.{Bytes, codes, bytes_eq}
use punnet_sdk.Types.Signature
use punnet_sdk.Types.Signature.{is_signed, get_algorithm}
use punnet_sdk.Types.Authorization.{verify_authorization}
use punnet_sdk.Types.Authorization.Weight.{weight_where}
use punnet_sdk.Types.Authorization.Signed.{signed}
use punnet_sdk.Types.Coordinator.{
  PublicKey, new_coordinator, import_signature, add_signature, has_signature_by, complete,
}
use punnet_sdk.Types.Coordinator.Collected.{IsEd25519, import_all, coordinated_accepted}
use punnet_sdk.Examples.Types.{
  curves, key1, key2, signature_by, alice, message, getter, alice-IsAuthority,
}

abbrev public_key : Bytes → PublicKey
public_key k = record {
  key_bytes = k;
  key_algorithm = codes "ed25519";
  key_verify = curves.ed25519_verify k;
}

-- The second key twice.
abbrev sent : List (PublicKey × Bytes)
sent =
    (public_key key2, (signature_by key2).signature)
    ∷ (public_key key2, (signature_by key2).signature)
    ∷ (public_key key1, (signature_by key1).signature)
    ∷ []

sent-IsEd25519 : All (IsEd25519 curves message) sent
sent-IsEd25519 = ((refl, refl), ((refl, refl), ((refl, refl), tt)))

sent-suffices :
    2
    ≤ weight_where
        (signed curves message (import_all sent (new_coordinator (ok message))).signatures)
        alice.authority.key_weights
unfolding weight_where signed is_signed get_algorithm bytes_eq import_all import_signature
    add_signature has_signature_by new_coordinator Signature.validate_basic Signature.validate_sizes
    Signature.is_valid_algorithm
sent-suffices = omega arith

coordinated_accepted_example :
    verify_authorization curves message getter
      (complete (import_all sent (new_coordinator (ok message))))
      alice
    ≡ ok tt
coordinated_accepted_example =
    coordinated_accepted curves message sent getter alice sent-IsEd25519 alice-IsAuthority
      (omega arith) sent-suffices
