-- ===== src/Auth/Validation.antt =====
-- modules/auth/validation.go: the checks of a transaction against its account. A sign document has its
-- version and its chain here; how it is made of a transaction, and its round trip, are parameters.
use punnet_sdk.Base.{
  ℕ, Bool, true, false, not, List, [], ◌∷◌, length, ltb, ◌==◌, if◌then◌else◌, Outcome, fail_if,
  ◌>>=◌, ◌>>◌, wrong_nonce, invalid_transaction, sign_doc_mismatch,
}
use punnet_sdk.Base.Bytes.{Bytes, codes, bytes_eq}
use punnet_sdk.Types.Signature.{Curves}
use punnet_sdk.Types.Authority.{Account}
use punnet_sdk.Types.Transaction
use punnet_sdk.Types.Transaction.{Transaction, Message, verify}

pub record SignDoc : Type 0 where
  pub version : Bytes
  pub chain_id : Bytes

abbrev pub supported_versions : List Bytes
supported_versions = codes "1" ∷ []

-- The loop of `ValidateSignDocVersion`.
unfoldable pub is_supported : Bytes → List Bytes → Bool
is_supported version [] = false
is_supported version (v ∷ vs) =
    let rest = is_supported version vs in if bytes_eq version v then true else rest

unfoldable pub validate_version : Bytes → Outcome (Unit {0})
unfolding is_supported
validate_version version = fail_if (not (is_supported version supported_versions)) sign_doc_mismatch

module _ {M : Type 0} where
  unfoldable pub validate_replay_protection : Transaction M → Bytes → ℕ → Outcome (Unit {0})
  validate_replay_protection tx chain_id expected = do
    fail_if (length chain_id == 0) invalid_transaction
    fail_if (not (tx.nonce == expected)) wrong_nonce

-- `TransactionValidator`, whose state is the chain.
module _ {M : Type 0} (message : Message M)
    (to_sign_doc : Transaction M → Bytes → ℕ → Outcome SignDoc)
    (round_trip : Transaction M → Bytes → ℕ → Outcome (Unit {0})) (chain : Bytes) where
  unfoldable pub validate_transaction : Transaction M → Account → Outcome (Unit {0})
  unfolding validate_version validate_replay_protection
  validate_transaction tx account = do
    Transaction.validate_basic message tx
    doc ← to_sign_doc tx chain account.nonce
    validate_version doc.version
    validate_replay_protection tx chain account.nonce
    round_trip tx chain account.nonce

  -- A nonce above the account's is let through.
  unfoldable pub validate_for_mempool : Transaction M → Account → Outcome (Unit {0})
  unfolding validate_version
  validate_for_mempool tx account = do
    Transaction.validate_basic message tx
    doc ← to_sign_doc tx chain account.nonce
    validate_version doc.version
    fail_if (not (bytes_eq doc.chain_id chain)) sign_doc_mismatch
    fail_if (ltb tx.nonce account.nonce) wrong_nonce

  unfoldable pub validate_for_block_proposal :
      Curves
      → (Transaction M → Bytes → ℕ → Outcome Bytes)
      → (Bytes → Outcome Account)
      → Transaction M
      → Account
      → Outcome (Unit {0})
  unfolding validate_transaction
  validate_for_block_proposal curves sign_bytes getter tx account = do
    validate_transaction tx account
    verify curves sign_bytes getter tx chain account
