-- ===== src/Types/Authorization/Weight.antt =====
-- The weight of the entries of a map that a test accepts.
use punnet_sdk.Base.{
  ℕ, ◌+◌, ◌≤◌, ◌≡◌, refl, Bool, true, false, [], ◌∷◌, some, none, arith, if◌then◌else◌,
}
use punnet_sdk.Base.Bytes.{Bytes, bytes_eq, eq_iff, eq_refl}
use punnet_sdk.Base.Dict.{Dict, lookup, Distinct, is_some}
use punnet_sdk.Types.Authority.Totals.{sum_weights}

unfoldable pub weight_where : (Bytes → Bool) → Dict ℕ → ℕ
weight_where p [] = 0
weight_where p ((k, w) ∷ m) = (if p k then w else 0) + weight_where p m

pub weight_where-le : (p : Bytes → Bool) (m : Dict ℕ) → weight_where p m ≤ sum_weights m
unfolding weight_where
weight_where-le p [] = omega arith
weight_where-le p ((k, w) ∷ m) = ground (arith, weight_where-le p m)

pub weight_where-none : (m : Dict ℕ) → weight_where (λ _. false) m ≡ 0
unfolding weight_where
weight_where-none [] = refl
weight_where-none ((k, w) ∷ m) = omega (arith, weight_where-none m)

-- Tests that agree on the keys of the map give the same weight.
pub weight_where-cong :
    (p q : Bytes → Bool) (m : Dict ℕ)
    → ((k : Bytes) → is_some (lookup k m) ≡ true → p k ≡ q k)
    → weight_where p m ≡ weight_where q m
unfolding weight_where lookup
weight_where-cong p q [] h = refl
weight_where-cong p q ((k, w) ∷ m) h =
    ground (arith, h k, eq_refl k, weight_where-cong p q m (λ j e. h j (ground arith)))

-- Away from a key that the map lacks.
weight_where_absent :
    (p q : Bytes → Bool) (k : Bytes) (m : Dict ℕ)
    → lookup k m ≡ none
    → ((j : Bytes) → bytes_eq k j ≡ false → p j ≡ q j)
    → weight_where p m ≡ weight_where q m
unfolding weight_where lookup
weight_where_absent p q k [] e h = refl
weight_where_absent p q k ((j, w) ∷ m) e h =
    ground (arith, h j, eq_iff k j, eq_iff j k, weight_where_absent p q k m (ground arith) h)

-- A test that accepts one key more, which the map has, weighs more by that key's weight.
pub weight_where_add :
    (p q : Bytes → Bool) (k : Bytes) (w : ℕ) (m : Dict ℕ)
    → Distinct m
    → lookup k m ≡ some w
    → p k ≡ false
    → q k ≡ true
    → ((j : Bytes) → bytes_eq k j ≡ false → p j ≡ q j)
    → weight_where q m ≡ weight_where p m + w
unfolding weight_where lookup
weight_where_add p q k w [] d e pk qk h = cc
weight_where_add p q k w ((j, v) ∷ m) d e pk qk h = ground (
  arith,
  h j,
  eq_iff k j,
  eq_iff j k,
  weight_where_absent p q k m,
  weight_where_add p q k w m d.1,
)
