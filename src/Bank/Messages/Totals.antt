-- ===== src/Bank/Messages/Totals.antt =====
-- `MsgMultiSend.ValidateBasic` of modules/bank/messages.go: the totals of inputs and outputs.
use punnet_sdk.Base.{
  ℕ, ◌+◌, ◌≤◌, ◌≡◌, refl, true, false, ◌==◌, List, [], ◌∷◌, length, Option, none, some, ok, fail_if,
  >>=-eq-ok, Error, if◌then◌else◌, max_u64, add_u64, add_u64-eq, arith, input_overflow,
  output_overflow, Bool-cases, inl, inr, All,
}
use punnet_sdk.Base.Bytes.{Bytes, bytes_eq, eq_iff}
use punnet_sdk.Base.Dict.{Dict, lookup, insert, get_or, is_some, lookup-insert}
use punnet_sdk.Types.Coin.{IsWord}
use punnet_sdk.Types.Coins.{Coins}
use punnet_sdk.Bank.Messages.{
  Party, MsgMultiSend, validate_parties, total_coins, total_parties, check_totals, check_extra,
  validate_multi_send,
}

-- The sum of the amounts of a denomination.
abbrev pub sum_coins : Bytes → Coins → ℕ
sum_coins d [] = 0
sum_coins d (c ∷ cs) = (if bytes_eq c.denom d then c.amount else 0) + sum_coins d cs

abbrev pub sum_parties : Bytes → List Party → ℕ
sum_parties d [] = 0
sum_parties d (p ∷ ps) = sum_coins d p.coins + sum_parties d ps

-- All amounts are uint64s.
abbrev pub ArePayments : List Party → Type 0
ArePayments = All (λ p. All IsWord p.coins)

abbrev pub entry : Bytes → Dict ℕ → ℕ
entry d m = get_or 0 (lookup d m)

total_coins_lem :
    (e : Error) (d : Bytes) (m n : Dict ℕ) (cs : Coins)
    → All IsWord cs
    → total_coins e m cs ≡ ok n
    → entry d m ≤ max_u64
    → (entry d n ≡ entry d m + sum_coins d cs) × (entry d n ≤ max_u64)
unfolding total_coins
total_coins_lem e d m n [] words h le = ground (arith)
total_coins_lem e d m n (c ∷ cs) words h le = ground (
  arith,
  lookup-insert c.denom d (add_u64 (entry c.denom m) c.amount) m,
  eq_iff c.denom d,
  add_u64-eq (entry c.denom m) c.amount,
  total_coins_lem e d (insert c.denom (add_u64 (entry c.denom m) c.amount) m) n cs words.1,
)

total_parties_lem :
    (e : Error) (d : Bytes) (m n : Dict ℕ) (ps : List Party)
    → ArePayments ps
    → total_parties e m ps ≡ ok n
    → entry d m ≤ max_u64
    → (entry d n ≡ entry d m + sum_parties d ps) × (entry d n ≤ max_u64)
unfolding total_parties
total_parties_lem e d m n [] words h le = ground (arith)
total_parties_lem e d m n (p ∷ ps) (u, us) h le =
    let (k, f, g) = >>=-eq-ok (total_coins e m p.coins) _ h in
    let (x, y) = total_coins_lem e d m k p.coins u f le in
    let (z, w) = total_parties_lem e d k n ps us g y in (omega (arith, x, z), w)

check_totals_lem :
    (d : Bytes) (outs ins : Dict ℕ)
    → check_totals outs ins ≡ ok tt
    → is_some (lookup d ins) ≡ true
    → entry d ins ≡ entry d outs
unfolding check_totals lookup
check_totals_lem d outs [] h k = cc
check_totals_lem d outs ((c, n) ∷ ins) h k = ground (arith, eq_iff c d, check_totals_lem d outs ins)

check_extra_lem :
    (d : Bytes) (ins outs : Dict ℕ)
    → check_extra ins outs ≡ ok tt
    → is_some (lookup d ins) ≡ false
    → entry d outs ≡ 0
unfolding check_extra lookup
check_extra_lem d ins [] h k = refl
check_extra_lem d ins ((c, n) ∷ outs) h k = ground (arith, eq_iff c d, check_extra_lem d ins outs)

no_entry : (o : Option ℕ) → is_some o ≡ false → get_or 0 o ≡ 0
no_entry none h = refl
no_entry (some n) h = cc

-- In a multi-send of uint64 amounts that passes validation the amounts of each denomination add up
-- to the same sum in the inputs and in the outputs, and the sum is a uint64.
pub validate_multi_send_balanced :
    (m : MsgMultiSend) (d : Bytes)
    → ArePayments m.inputs
    → ArePayments m.outputs
    → validate_multi_send m ≡ ok tt
    → (sum_parties d m.inputs ≡ sum_parties d m.outputs) × (sum_parties d m.inputs ≤ max_u64)
unfolding validate_multi_send lookup
validate_multi_send_balanced m d u v h =
    let (_, _, h1) = >>=-eq-ok (fail_if (length m.inputs == 0) _) _ h in
    let (_, _, h2) = >>=-eq-ok (fail_if (length m.outputs == 0) _) _ h1 in
    let (_, _, h3) = >>=-eq-ok (validate_parties m.inputs) _ h2 in
    let (_, _, h4) = >>=-eq-ok (validate_parties m.outputs) _ h3 in
    let (ins, e, h5) = >>=-eq-ok (total_parties input_overflow [] m.inputs) _ h4 in
    let (outs, f, h6) = >>=-eq-ok (total_parties output_overflow [] m.outputs) _ h5 in
    let (_, g, k) = >>=-eq-ok (check_totals outs ins) _ h6 in
    let (x, x1) = total_parties_lem input_overflow d [] ins m.inputs u e (omega arith) in
    let (y, y1) = total_parties_lem output_overflow d [] outs m.outputs v f (omega arith) in
    let same : entry d ins ≡ entry d outs = elim (Bool-cases (is_some (lookup d ins))) [
      | inl t ↦ check_totals_lem d outs ins g t
      | inr t ↦ cc (no_entry (lookup d ins) t, check_extra_lem d ins outs k t)
    ] in
    (omega (arith, x, y, same), omega (arith, x, x1))
