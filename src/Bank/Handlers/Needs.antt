-- ===== src/Bank/Handlers/Needs.antt =====
-- `outputNeeds` of `handleMultiSend`: what the outputs need, by account and denomination.
use punnet_sdk.Base.{
  ap, ◌∙◌, refl, ℕ, ◌+◌, ◌≤◌, ◌≡◌, List, [], ◌∷◌, if◌then◌else◌, max_u64, add_u64, add_u64-eq,
  arith,
}
use mathlib.Core.List.{Permᴰ}
use punnet_sdk.Base.Bytes.{Bytes, bytes_eq, eq_iff}
use punnet_sdk.Base.Dict.{Dict, lookup, insert, get_or, lookup-insert}
use punnet_sdk.Types.Coin.{Coin}
use punnet_sdk.Types.Coins.{Coins}
use punnet_sdk.Bank.Messages.{Party}
use punnet_sdk.Bank.Messages.Totals.{sum_coins, sum_parties, entry}
use punnet_sdk.Bank.Handlers.{Needs, RangeOrder, add_needs, output_needs}

-- The amounts of a denomination for the parties of one account.
abbrev pub sum_for : Bytes → Bytes → List Party → ℕ
sum_for a d [] = 0
sum_for a d (p ∷ ps) = (if bytes_eq p.address a then sum_coins d p.coins else 0) + sum_for a d ps

-- What all accounts need, and what one needs.
abbrev pub need : Bytes → Needs → ℕ
need d [] = 0
need d ((b, x) ∷ m) = entry d x + need d m

abbrev pub need_of : Bytes → Bytes → Needs → ℕ
need_of a d [] = 0
need_of a d ((b, x) ∷ m) = (if bytes_eq b a then entry d x else 0) + need_of a d m

pub need_of-le : (a d : Bytes) (m : Needs) → need_of a d m ≤ need d m
need_of-le a d [] = omega arith
need_of-le a d ((b, x) ∷ m) = ground (arith, need_of-le a d m)

abbrev old : Bytes → Needs → Dict ℕ
old b m = get_or [] (lookup b m)

need-insert :
    (d b : Bytes) (x : Dict ℕ) (m : Needs)
    → need d (insert b x m) + entry d (old b m) ≡ need d m + entry d x
unfolding insert lookup
need-insert d b x [] = ground arith
need-insert d b x ((c, y) ∷ m) = ground (arith, need-insert d b x m)

need_of-insert :
    (a d b : Bytes) (x : Dict ℕ) (m : Needs)
    → need_of a d (insert b x m) + (if bytes_eq b a then entry d (old b m) else 0)
      ≡ need_of a d m + (if bytes_eq b a then entry d x else 0)
unfolding insert lookup
need_of-insert a d b x [] = ground arith
need_of-insert a d b x ((c, y) ∷ m) = ground (arith, eq_iff c b, need_of-insert a d b x m)

add_needs_lem :
    (d : Bytes) (x : Dict ℕ) (cs : Coins)
    → entry d x + sum_coins d cs ≤ max_u64
    → entry d (add_needs x cs) ≡ entry d x + sum_coins d cs
unfolding add_needs
add_needs_lem d x [] h = omega arith
add_needs_lem d x (c ∷ cs) h = ground (
  arith,
  lookup-insert c.denom d (add_u64 (entry c.denom x) c.amount) x,
  eq_iff c.denom d,
  add_u64-eq (entry c.denom x) c.amount,
  add_needs_lem d (insert c.denom (add_u64 (entry c.denom x) c.amount) x) cs,
)

old-le : (d b : Bytes) (m : Needs) → entry d (old b m) ≤ need d m
unfolding lookup
old-le d b [] = omega arith
old-le d b ((c, y) ∷ m) = ground (arith, old-le d b m)

-- The needs are the sums of the outputs, in all and for each account.
pub output_needs_lem :
    (a d : Bytes) (m : Needs) (ps : List Party)
    → need d m + sum_parties d ps ≤ max_u64
    → (need d (output_needs m ps) ≡ need d m + sum_parties d ps)
      × (need_of a d (output_needs m ps) ≡ need_of a d m + sum_for a d ps)
unfolding output_needs
output_needs_lem a d m [] h = (omega arith, omega arith)
output_needs_lem a d m (p ∷ ps) h =
    let x = add_needs (old p.address m) p.coins in
    let m1 = insert p.address x m in
    let le = old-le d p.address m in
    let e = add_needs_lem d (old p.address m) p.coins (omega (arith, le)) in
    let f = need-insert d p.address x m in
    let (g, k) = output_needs_lem a d m1 ps (omega (arith, e, f)) in
    (omega (arith, e, f, g), ground (arith, k, e, need_of-insert a d p.address x m))

-- The needs of all and of one account do not depend on the order of the map.
pub need_permutation : (d : Bytes) {m n : Needs} → Permᴰ m n → need d m ≡ need d n
need_permutation d Permᴰ.nil = refl
need_permutation d (Permᴰ.cons e p) = omega (arith, ap (λ x. entry d x.1) e, need_permutation d p)
need_permutation d (Permᴰ.swap e f) =
    omega (arith, ap (λ x. entry d x.1) e, ap (λ x. entry d x.1) f)
need_permutation d (Permᴰ.trans p q) = need_permutation d p ∙ need_permutation d q

abbrev part : Bytes → Bytes → Bytes × Dict ℕ → ℕ
part a d x = if bytes_eq x.0 a then entry d x.1 else 0

pub need_of_permutation : (a d : Bytes) {m n : Needs} → Permᴰ m n → need_of a d m ≡ need_of a d n
need_of_permutation a d Permᴰ.nil = refl
need_of_permutation a d (Permᴰ.cons e p) = omega (arith, ap (part a d) e, need_of_permutation a d p)
need_of_permutation a d (Permᴰ.swap e f) = omega (arith, ap (part a d) e, ap (part a d) f)
need_of_permutation a d (Permᴰ.trans p q) = need_of_permutation a d p ∙ need_of_permutation a d q

-- The range meets every account of the needs once, in some order.
abbrev pub IsRangeOrder : RangeOrder → Type 0
IsRangeOrder order = (from : Bytes) (c : Coin) (m : Needs) → Permᴰ (order from c m) m
