-- ===== src/Types/Coordinator/Collected.antt =====
-- What the coordinator of types/multisign.go has collected, and how types/authorization.go answers it.
use punnet_sdk.Base.{
  ◌≤◌, ◌≡◌, refl, sym, ◌∙◌, Bool, true, false, List, [], ◌∷◌, ◌++◌, Outcome, ok, err, All, subst,
  arith, max_u64,
}
use punnet_sdk.Base.Bytes.{Bytes, eq_iff}
use punnet_sdk.Types.Authority.{Account}
use punnet_sdk.Types.Authority.Totals.{all_weight}
use punnet_sdk.Types.Signature
use punnet_sdk.Types.Signature.{Signature, Curves, is_signed, algorithm_ed25519, get_algorithm}
use punnet_sdk.Types.Authorization.{verify_authorization}
use punnet_sdk.Types.Authorization.Weight.{weight_where}
use punnet_sdk.Types.Authorization.Signed.{IsAuthority, signed}
use punnet_sdk.Types.Authorization.Verify.{AllSigned}
use punnet_sdk.Types.Authorization.MultiSig.{UniqueKeys, verify_authorization_complete}
use punnet_sdk.Types.Coordinator.{
  MultiSignCoordinator, PublicKey, new_coordinator, has_signature_by, add_signature,
  import_signature, import_verified, add_valid, complete,
}

-- The signatures and keys that remote signers send are imported one by one; those that are refused are
-- left out.
unfoldable pub import_all : List (PublicKey × Bytes) → MultiSignCoordinator → MultiSignCoordinator
import_all [] c = c
import_all ((pk, sig) ∷ more) c = import_all more (import_signature c pk sig).1

All-append :
    {A : Type 0} (P : A → Type 0) (xs : List A) (y : A) → All P xs → P y → All P (xs ++ y ∷ [])
All-append P [] y a p = (p, tt)
All-append P (x ∷ xs) y a p = (a.0, All-append P xs y a.1 p)

UniqueKeys-append :
    (ss : List Signature) (s : Signature)
    → UniqueKeys ss
    → has_signature_by s.pub_key ss ≡ false
    → UniqueKeys (ss ++ s ∷ [])
unfolding has_signature_by
UniqueKeys-append [] s u h = (tt, tt)
UniqueKeys-append (t ∷ ss) s u h =
    (All-append _ ss s u.0 (ground (arith, h)), UniqueKeys-append ss s u.1 (ground (arith, h)))

module _ (c : Curves) (message : Bytes) where
  -- What holds of a coordinator for the message after any imports.
  pub record IsCollected (m : MultiSignCoordinator) : Type 0 where
    pub signs : m.sign_bytes ≡ ok message
    pub all_signed : AllSigned c message m.signatures
    pub unique : UniqueKeys m.signatures

  -- A key of ed25519, which verifies as the curve does.
  abbrev pub IsEd25519 : PublicKey × Bytes → Type 0
  IsEd25519 (pk, sig) =
      (pk.key_algorithm ≡ algorithm_ed25519)
      × (pk.key_verify message sig ≡ c.ed25519_verify pk.key_bytes message sig)

  signed_valid :
      (s : Signature)
      → s.algorithm ≡ algorithm_ed25519
      → Signature.validate_basic s ≡ ok tt
      → c.ed25519_verify s.pub_key message s.signature ≡ true
      → is_signed c s message ≡ true
  unfolding is_signed Signature.validate_basic get_algorithm Signature.validate_sizes
  signed_valid s a v e =
      ground (arith, v, e, a, eq_iff s.algorithm [], eq_iff s.algorithm algorithm_ed25519)

  add-IsCollected :
      (m : MultiSignCoordinator) (s : Signature)
      → IsCollected m
      → s.algorithm ≡ algorithm_ed25519
      → c.ed25519_verify s.pub_key message s.signature ≡ true
      → IsCollected (add_signature m s).1
  unfolding add_signature
  add-IsCollected m s h a e =
      go (Signature.validate_basic s) refl (has_signature_by s.pub_key m.signatures) refl
    where
      go :
          (o : Outcome (Unit {0}))
          → Signature.validate_basic s ≡ o
          → (b : Bool) → has_signature_by s.pub_key m.signatures ≡ b
          → IsCollected (add_valid m s o).1
      go (err x) v b q = h
      go (ok u) v true q = rw (q) h
      go (ok u) v false q = rw (q) (record {
        signs = h.signs;
        all_signed = All-append _ m.signatures s h.all_signed (signed_valid s a v e);
        unique = UniqueKeys-append m.signatures s h.unique q;
      })

  import-IsCollected :
      (m : MultiSignCoordinator) (pk : PublicKey) (sig : Bytes)
      → IsCollected m
      → IsEd25519 (pk, sig)
      → IsCollected (import_signature m pk sig).1
  unfolding import_signature
  import-IsCollected m pk sig h g =
      subst (λ o. IsCollected (import_verified m pk sig o).1) (sym h.signs)
        (go (pk.key_verify message sig) refl)
    where
      go :
          (b : Bool)
          → pk.key_verify message sig ≡ b
          → IsCollected (import_verified m pk sig (ok message)).1
      go true t = rw (t) (add-IsCollected m _ h g.0 (sym g.1 ∙ t))
      go false t = rw (t) h

  imports-IsCollected :
      (ps : List (PublicKey × Bytes)) (m : MultiSignCoordinator)
      → IsCollected m
      → All IsEd25519 ps
      → IsCollected (import_all ps m)
  unfolding import_all
  imports-IsCollected [] m h g = h
  imports-IsCollected ((pk, sig) ∷ ps) m h g =
      imports-IsCollected ps (import_signature m pk sig).1 (import-IsCollected m pk sig h g.0) g.1

  new-IsCollected : IsCollected (new_coordinator (ok message))
  unfolding new_coordinator
  new-IsCollected = record { signs = refl; all_signed = tt; unique = tt }

  -- Signatures by ed25519 keys that are imported in any order into a new coordinator, whatever imports are
  -- refused, make an authorization that the account accepts, when the weights of the keys that have
  -- signed it reach its threshold. The account's authority has each key once, uint64 weights and a uint64
  -- sum of all weights.
  pub coordinated_accepted :
      (ps : List (PublicKey × Bytes)) (getter : Bytes → Outcome Account) (account : Account)
      → All IsEd25519 ps
      → IsAuthority account.authority
      → all_weight account.authority ≤ max_u64
      → account.authority.threshold
        ≤ weight_where
            (signed c message (import_all ps (new_coordinator (ok message))).signatures)
            account.authority.key_weights
      → verify_authorization c message getter
          (complete (import_all ps (new_coordinator (ok message))))
          account
        ≡ ok tt
  unfolding complete
  coordinated_accepted ps getter account g go fits enough =
      let h = imports-IsCollected ps (new_coordinator (ok message)) new-IsCollected g in
      verify_authorization_complete c message getter
        (import_all ps (new_coordinator (ok message))).signatures account go fits h.all_signed
        h.unique enough
