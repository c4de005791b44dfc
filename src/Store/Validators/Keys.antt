-- ===== src/Store/Validators/Keys.antt =====
-- The keys of the delegations of store/validator_store.go.
use punnet_sdk.Base.{ℕ, ◌≤◌, ◌≡◌, refl, true, [], ◌∷◌, ◌/◌, ◌%◌, arith, All}
use punnet_sdk.Base.Bytes.{Bytes}
use punnet_sdk.Types.AccountName
use punnet_sdk.Store.Balance.{balance_key}
use punnet_sdk.Store.Balance.Keys.{balance_key_injective}
use punnet_sdk.Store.Validators.{hex, hex_digit, delegation_key}

hex_digit_injective : (m n : ℕ) → m ≤ 15 → n ≤ 15 → hex_digit m ≡ hex_digit n → m ≡ n
unfolding hex_digit
hex_digit_injective m n a b e = ground (arith, e, a, b)

byte_of : (x y : ℕ) → x / 16 ≡ y / 16 → x % 16 ≡ y % 16 → x ≡ y
byte_of x y a b = omega (arith, a, b)

pub hex_injective :
    (a b : Bytes) → All (λ x. x ≤ 255) a → All (λ x. x ≤ 255) b → hex a ≡ hex b → a ≡ b
unfolding hex
hex_injective [] [] p q e = refl
hex_injective [] (y ∷ b) p q e = cc
hex_injective (x ∷ a) [] p q e = cc
hex_injective (x ∷ a) (y ∷ b) p q e = ground (
  arith,
  e,
  p.0,
  q.0,
  hex_digit_injective (x / 16) (y / 16),
  hex_digit_injective (x % 16) (y % 16),
  byte_of x y,
  hex_injective a b p.1 q.1,
)

-- Delegations of valid delegators to validators whose public keys are bytes share a key only if
-- delegator and validator are the same.
pub delegation_key_injective :
    (a b v w : Bytes)
    → AccountName.is_valid a ≡ true
    → AccountName.is_valid b ≡ true
    → All (λ x. x ≤ 255) v
    → All (λ x. x ≤ 255) w
    → delegation_key a v ≡ delegation_key b w
    → (a ≡ b) × (v ≡ w)
unfolding delegation_key balance_key
delegation_key_injective a b v w m n p q e =
    let (x, y) = balance_key_injective a b (hex v) (hex w) m n e in (x, hex_injective v w p q y)
