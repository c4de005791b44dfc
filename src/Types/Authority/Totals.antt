-- ===== src/Types/Authority/Totals.antt =====
-- `Authority.ValidateBasic` and the totals of weights of types/account.go.
use punnet_sdk.Base.{
  ℕ, ◌+◌, ◌≤◌, ◌<◌, ◌≡◌, refl, ◌↔◌, true, [], ◌∷◌, All, ok, arith, max_u64, add_u64, add_u64-eq,
  inl, inr, Outcome-cases,
}
use punnet_sdk.Base.Dict.{Dict}
use punnet_sdk.Types.AccountName
use punnet_sdk.Types.Authority.{
  Authority, add_weights, check_names, validate_basic, total_weight, total_possible_weight,
}

-- The sum of the weights of a map, with no bound.
abbrev pub sum_weights : Dict ℕ → ℕ
sum_weights [] = 0
sum_weights ((_, w) ∷ m) = w + sum_weights m

abbrev pub all_weight : Authority → ℕ
all_weight a = sum_weights a.key_weights + sum_weights a.account_weights

-- The weights are uint64.
abbrev pub Words : Dict ℕ → Type 0
Words = All (λ e. e.1 ≤ max_u64)

abbrev pub IsWord : Authority → Type 0
IsWord a = Words a.key_weights × Words a.account_weights

abbrev pub ValidNames : Dict ℕ → Type 0
ValidNames = All (λ e. AccountName.is_valid e.0 ≡ true)

-- What `ValidateBasic` promises.
pub record IsValid (a : Authority) : Type 0 where
  pub positive : 0 < a.threshold
  pub reachable : a.threshold ≤ all_weight a
  pub fits : all_weight a ≤ max_u64
  pub names : ValidNames a.account_weights

add_weights_sound :
    (t : ℕ) (m : Dict ℕ) (r : ℕ)
    → Words m
    → t ≤ max_u64
    → add_weights t m ≡ ok r
    → (r ≡ t + sum_weights m) × (r ≤ max_u64)
unfolding add_weights
add_weights_sound t [] r u b h = ground arith
add_weights_sound t ((k, w) ∷ m) r u b h =
    ground (arith, add_weights_sound (add_u64 t w) m r u.1, add_u64-eq t w)

add_weights_complete :
    (t : ℕ) (m : Dict ℕ) → t + sum_weights m ≤ max_u64 → add_weights t m ≡ ok (t + sum_weights m)
unfolding add_weights
add_weights_complete t [] b = ground arith
add_weights_complete t ((k, w) ∷ m) b =
    ground (arith, add_weights_complete (add_u64 t w) m, add_u64-eq t w)

check_names_sound : (m : Dict ℕ) → check_names m ≡ ok tt → ValidNames m
unfolding check_names
check_names_sound [] h = tt
check_names_sound ((k, w) ∷ m) h = ground (arith, check_names_sound m)

check_names_complete : (m : Dict ℕ) → ValidNames m → check_names m ≡ ok tt
unfolding check_names
check_names_complete [] h = refl
check_names_complete ((k, w) ∷ m) h = ground (arith, check_names_complete m h.1)

validate_basic_sound : (a : Authority) → IsWord a → validate_basic a ≡ ok tt → IsValid a
unfolding validate_basic
validate_basic_sound a u h = elim (Outcome-cases (add_weights 0 a.key_weights)) [
  | inl (r, e) ↦ elim (Outcome-cases (add_weights r a.account_weights)) [
    | inl (t, f) ↦ ground (
      arith,
      e,
      f,
      add_weights_sound 0 a.key_weights r u.0,
      add_weights_sound r a.account_weights t u.1,
      check_names_sound a.account_weights,
    )
    | inr (x, f) ↦ ground (arith, e, f)
  ]
  | inr (x, e) ↦ ground (arith, e)
]

validate_basic_complete : (a : Authority) → IsValid a → validate_basic a ≡ ok tt
unfolding validate_basic
validate_basic_complete a v =
    rw
      (
        add_weights_complete 0 a.key_weights (omega (arith, v.fits)),
        add_weights_complete (0 + sum_weights a.key_weights) a.account_weights
            (omega (arith, v.fits)),
      )
      (ground (arith, check_names_complete a.account_weights v.names, v.reachable, v.positive))

-- `ValidateBasic` accepts an authority with uint64 weights exactly when its threshold is positive
-- and not above the sum of all weights, that sum is a uint64, and every delegated account has a
-- valid name.
pub validate_basic_iff : (a : Authority) → IsWord a → (validate_basic a ≡ ok tt) ↔ IsValid a
validate_basic_iff a u = (validate_basic_sound a u, validate_basic_complete a)

total_weight_lem :
    (t : ℕ) (m : Dict ℕ) → t + sum_weights m ≤ max_u64 → total_weight t m ≡ t + sum_weights m
unfolding total_weight
total_weight_lem t [] b = omega arith
total_weight_lem t ((k, w) ∷ m) b = ground (arith, total_weight_lem (add_u64 t w) m, add_u64-eq t w)

-- The total that wraps is the exact sum for an authority with uint64 weights that `ValidateBasic`
-- accepts, so such an authority can reach its threshold.
pub total_possible_weight_lem :
    (a : Authority)
    → IsWord a
    → validate_basic a ≡ ok tt
    → (total_possible_weight a ≡ all_weight a) × (a.threshold ≤ total_possible_weight a)
unfolding total_possible_weight
total_possible_weight_lem a u h =
    let v = validate_basic_sound a u h in
    ground (
      arith,
      v.fits,
      v.reachable,
      total_weight_lem 0 a.key_weights,
      total_weight_lem 0 a.account_weights,
      add_u64-eq (sum_weights a.key_weights) (sum_weights a.account_weights),
    )
