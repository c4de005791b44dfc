-- ===== src/Base/Results.antt =====
-- Go's `(T, error)`: a value or an error. An error wrapped by `%w` or `%v` is the sentinel that it
-- wraps, and an error with a text of its own has a constructor of its own.
use mathlib.Core.Path.{◌≡◌, refl}
use mathlib.Core.Logic.{◌⊎◌, inl, inr}
use mathlib.Core.Bool.{Bool, true, false}

pub data Error : Type 0 where
  -- types/errors.go
  invalid_account invalid_authority invalid_authorization invalid_signature : Error
  unsupported_algorithm invalid_public_key insufficient_weight authorization_cycle : Error
  max_recursion_depth duplicate_signature insufficient_funds not_found invalid_transaction : Error
  -- store/store.go
  key_invalid value_invalid store_closed key_not_found : Error
  -- errors that have only a text
  weight_overflow balance_overflow nil_dereference rollback_failed : Error
  empty_denom self_transfer invalid_amount amount_not_positive : Error
  empty_store_name empty_key nil_destination empty_event_type : Error
  nothing_ready graph_has_cycles conflict_detected : Error
  empty_inputs empty_outputs input_overflow output_overflow totals_differ extra_output : Error
  wrong_sender wrong_message invalid_query : Error
  -- a Go panic, which ends the call too
  panic : Error
  iterator_closed account_exists handler_not_found duplicate_handler empty_message_type : Error
  nil_effects no_block empty_chain_id zero_height zero_time read_only_context : Error
  invalid_fee invalid_ratio wrong_nonce not_a_signer sign_doc_mismatch empty_path : Error
  module_name_empty invalid_dependency duplicate_module missing_dependency module_not_found : Error
  no_modules not_built empty_bytes invalid_height cyclic_dependency : Error

pub data Outcome {ℓ} (A : Type ℓ) : Type ℓ where
  ok : A → Outcome A
  err : Error → Outcome A

-- `if err != nil { return err }` behind a call
infixl 5 ◌>>=◌ ◌>>◌
abbrev pub ◌>>=◌ {ℓ κ} : {A : Type ℓ} {B : Type κ} → Outcome A → (A → Outcome B) → Outcome B
ok a >>= f = f a
err e >>= f = err e

abbrev pub ◌>>◌ {ℓ} : {B : Type ℓ} → Outcome (Unit {0}) → Outcome B → Outcome B
m >> k = m >>= λ _. k

-- `if bad { return err }`
abbrev pub fail_if : Bool → Error → Outcome (Unit {0})
fail_if true e = err e
fail_if false e = ok tt

-- The value, or else another one.
abbrev pub value_or {ℓ} : {A : Type ℓ} → A → Outcome A → A
value_or x (ok y) = y
value_or x (err e) = x

-- A chain that succeeds has a first call that succeeds, with the value that the rest goes on from.
pub >>=-eq-ok {ℓ κ} :
    {A : Type ℓ} {B : Type κ} (first : Outcome A) (next : A → Outcome B) {y : B}
    → (first >>= next) ≡ ok y
    → (x : A) × (first ≡ ok x) × (next x ≡ ok y)
>>=-eq-ok (ok x) next eq = (x, refl, eq)
>>=-eq-ok (err z) next eq = cc

pub Outcome-cases {ℓ} :
    {A : Type ℓ} (r : Outcome A) → ((a : A) × (r ≡ ok a)) ⊎ ((e : Error) × (r ≡ err e))
Outcome-cases (ok a) = inl (a, refl)
Outcome-cases (err e) = inr (e, refl)
