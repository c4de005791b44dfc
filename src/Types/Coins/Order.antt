-- ===== src/Types/Coins/Order.antt =====
-- `Coins.IsValid` of types/coin.go, and its order of the denominations.
use punnet_sdk.Base.{◌≡◌, refl, ◌↔◌, Bool, true, false, [], ◌∷◌, none, some, Option, All, arith}
use punnet_sdk.Base.Bytes.{Bytes, bytes_lt, eq_iff, lt_irrefl, lt_trans}
use punnet_sdk.Base.Dict.{Dict, lookup, insert, get_or, lookup-insert}
use punnet_sdk.Types.Coin
use punnet_sdk.Types.Coin.{Coin}
use punnet_sdk.Types.Coins.{Coins, all_valid, not_above, is_ordered, is_valid}

-- Every denomination of the list is above `d`.
abbrev pub Above : Bytes → Coins → Type 0
Above d = All (λ c. bytes_lt d c.denom ≡ true)

abbrev pub Ascending : Coins → Type 0
Ascending [] = Unit
Ascending (c ∷ cs) = Above c.denom cs × Ascending cs

-- What `IsValid` promises.
abbrev pub IsValid : Coins → Type 0
IsValid coins = All (λ c. Coin.is_valid c ≡ true) coins × Ascending coins

all_valid_sound : (cs : Coins) → all_valid cs ≡ true → All (λ c. Coin.is_valid c ≡ true) cs
unfolding all_valid
all_valid_sound [] h = tt
all_valid_sound (c ∷ cs) h = ground (arith, all_valid_sound cs)

all_valid_complete : (cs : Coins) → All (λ c. Coin.is_valid c ≡ true) cs → all_valid cs ≡ true
unfolding all_valid
all_valid_complete [] h = refl
all_valid_complete (c ∷ cs) h = ground (arith, all_valid_complete cs h.1)

pub Above-trans : (d e : Bytes) (cs : Coins) → bytes_lt d e ≡ true → Above e cs → Above d cs
Above-trans d e [] h a = tt
Above-trans d e (c ∷ cs) h a = (lt_trans d e c.denom h a.0, Above-trans d e cs h a.1)

abbrev AbovePrev : Option Bytes → Coins → Type 0
AbovePrev none cs = Unit
AbovePrev (some d) cs = Above d cs

abbrev Unseen : Dict Bool → Coins → Type 0
Unseen seen = All (λ c. get_or false (lookup c.denom seen) ≡ false)

AbovePrev-cons :
    (prev : Option Bytes) (c : Coin) (cs : Coins)
    → not_above prev c.denom ≡ false
    → Above c.denom cs
    → AbovePrev prev (c ∷ cs)
unfolding not_above
AbovePrev-cons none c cs h a = tt
AbovePrev-cons (some d) c cs h a =
    let lt : bytes_lt d c.denom ≡ true = ground arith in (lt, Above-trans d c.denom cs lt a)

not_above_of_AbovePrev :
    (prev : Option Bytes) (c : Coin) (cs : Coins)
    → AbovePrev prev (c ∷ cs)
    → not_above prev c.denom ≡ false
unfolding not_above
not_above_of_AbovePrev none c cs a = refl
not_above_of_AbovePrev (some d) c cs a = ground arith

is_ordered_sound :
    (seen : Dict Bool) (prev : Option Bytes) (cs : Coins)
    → is_ordered seen prev cs ≡ true
    → AbovePrev prev cs × Ascending cs
unfolding is_ordered
is_ordered_sound seen none [] h = (tt, tt)
is_ordered_sound seen (some d) [] h = (tt, tt)
is_ordered_sound seen prev (c ∷ cs) h =
    let rest = is_ordered_sound (insert c.denom true seen) (some c.denom) cs (ground arith) in
    (AbovePrev-cons prev c cs (ground arith) rest.0, rest)

Unseen-insert :
    (d : Bytes) (seen : Dict Bool) (cs : Coins)
    → Above d cs
    → Unseen seen cs
    → Unseen (insert d true seen) cs
Unseen-insert d seen [] a u = tt
Unseen-insert d seen (c ∷ cs) a u = (
  ground (arith, lookup-insert d c.denom true seen, eq_iff d c.denom, lt_irrefl d),
  Unseen-insert d seen cs a.1 u.1,
)

is_ordered_complete :
    (seen : Dict Bool) (prev : Option Bytes) (cs : Coins)
    → AbovePrev prev cs
    → Ascending cs
    → Unseen seen cs
    → is_ordered seen prev cs ≡ true
unfolding is_ordered
is_ordered_complete seen prev [] p a u = refl
is_ordered_complete seen prev (c ∷ cs) p a u = rw (
  u.0,
  not_above_of_AbovePrev prev c cs p,
  is_ordered_complete (insert c.denom true seen) (some c.denom) cs a.0 a.1
      (Unseen-insert c.denom seen cs a.0 u.1),
)

Unseen-nil : (cs : Coins) → Unseen [] cs
unfolding lookup
Unseen-nil [] = tt
Unseen-nil (c ∷ cs) = (refl, Unseen-nil cs)

-- `IsValid` accepts a collection exactly when every coin is valid and the denominations are
-- strictly ascending, so that none occurs twice.
pub is_valid_iff : (coins : Coins) → (is_valid coins ≡ true) ↔ IsValid coins
unfolding is_valid
is_valid_iff coins = (
  λ h. (all_valid_sound coins (ground arith), (is_ordered_sound [] none coins (ground arith)).1),
  λ h.
      rw
        (all_valid_complete coins h.0, is_ordered_complete [] none coins tt h.1 (Unseen-nil coins)),
)
