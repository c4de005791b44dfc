-- ===== src/Bank/Handlers/Distribute.antt =====
-- The loop of `handleMultiSend` that makes transfers: what each sender gives and each receiver gets.
use punnet_sdk.Base.{ℕ, ◌+◌, ◌-◌, ◌≤◌, ◌≡◌, ◌&&◌, List, [], ◌∷◌, ◌++◌, if◌then◌else◌, arith}
use punnet_sdk.Base.Bytes.{Bytes, bytes_eq, eq_iff, eq_refl}
use punnet_sdk.Base.Dict.{lookup-insert}
use punnet_sdk.Types.Coins.{Coins}
use punnet_sdk.Effects.Effect.{Effect, reads, writes, transfers, emits, deletes}
use punnet_sdk.Bank.Messages.{Party}
use punnet_sdk.Bank.Messages.Totals.{sum_coins, sum_parties, entry}
use punnet_sdk.Bank.Handlers.{
  Needs, RangeOrder, to_transfer, distribute, distribute_coins, distribute_inputs,
}
use punnet_sdk.Bank.Handlers.Needs.{
  need_permutation, need_of_permutation, IsRangeOrder, need, need_of, sum_for,
}

module _ {V : Type 0} where
  -- The amounts of a denomination that effects take from an account and give to one.
  abbrev pub sent_by : Bytes → Bytes → Effect V → ℕ
  sent_by a d (reads _ _ _) = 0
  sent_by a d (writes _ _ _) = 0
  sent_by a d (transfers from to cs) = if bytes_eq from a then sum_coins d cs else 0
  sent_by a d (emits _ _) = 0
  sent_by a d (deletes _ _) = 0

  abbrev pub given_by : Bytes → Bytes → Effect V → ℕ
  given_by a d (reads _ _ _) = 0
  given_by a d (writes _ _ _) = 0
  given_by a d (transfers from to cs) = if bytes_eq to a then sum_coins d cs else 0
  given_by a d (emits _ _) = 0
  given_by a d (deletes _ _) = 0

  abbrev pub sent : Bytes → Bytes → List (Effect V) → ℕ
  sent a d [] = 0
  sent a d (e ∷ es) = sent_by a d e + sent a d es

  abbrev pub received : Bytes → Bytes → List (Effect V) → ℕ
  received a d [] = 0
  received a d (e ∷ es) = given_by a d e + received a d es

  pub sent-append :
      (a d : Bytes) (es fs : List (Effect V)) → sent a d (es ++ fs) ≡ sent a d es + sent a d fs
  sent-append a d [] fs = omega arith
  sent-append a d (e ∷ es) fs = omega (arith, sent-append a d es fs)

  pub received-append :
      (a d : Bytes) (es fs : List (Effect V))
      → received a d (es ++ fs) ≡ received a d es + received a d fs
  received-append a d [] fs = omega arith
  received-append a d (e ∷ es) fs = omega (arith, received-append a d es fs)

module _ (V : Type 0) where
  -- All of a coin goes, where the needs are as large.
  distribute_lem :
      (a d from denom : Bytes) (n : ℕ) (m : Needs)
      → n ≤ need denom m
      → (sent a d (distribute {V = V} from denom n m).0
          ≡ (if bytes_eq from a && bytes_eq denom d then n else 0))
        × (need d (distribute {V = V} from denom n m).1 + (if bytes_eq denom d then n else 0)
            ≡ need d m)
        × (need_of a d (distribute {V = V} from denom n m).1
              + received a d (distribute {V = V} from denom n m).0
            ≡ need_of a d m)
  unfolding distribute to_transfer
  distribute_lem a d from denom n [] h = ground arith
  distribute_lem a d from denom n ((b, x) ∷ m) h =
      let k = to_transfer n (entry denom x) in
      ground (
        arith,
        eq_iff from a,
        eq_iff denom d,
        eq_iff b a,
        lookup-insert denom d (entry denom x - k) x,
        distribute_lem a d from denom n m,
        distribute_lem a d from denom (n - k) m,
      )

  module _ (order : RangeOrder) (is_order : IsRangeOrder order) where
    distribute_coins_lem :
        (a d from : Bytes) (cs : Coins) (m : Needs)
        → ((x : Bytes) → sum_coins x cs ≤ need x m)
        → (sent a d (distribute_coins {V = V} order from cs m).0
            ≡ (if bytes_eq from a then sum_coins d cs else 0))
          × (need d (distribute_coins {V = V} order from cs m).1 + sum_coins d cs ≡ need d m)
          × (need_of a d (distribute_coins {V = V} order from cs m).1
                + received a d (distribute_coins {V = V} order from cs m).0
              ≡ need_of a d m)
    unfolding distribute_coins
    distribute_coins_lem a d from [] m h = ground arith
    distribute_coins_lem a d from (c ∷ cs) m h =
        let es = (distribute {V = V} from c.denom c.amount (order from c m)).0 in
        let m1 = (distribute {V = V} from c.denom c.amount (order from c m)).1 in
        let fs = (distribute_coins {V = V} order from cs m1).0 in
        let same : (t : Bytes) → need t (order from c m) ≡ need t m =
          λ t. need_permutation t (is_order from c m) in
        let le : c.amount ≤ need c.denom (order from c m) =
          ground (arith, h c.denom, same c.denom, eq_refl c.denom) in
        let (x, y, z) = distribute_lem a d from c.denom c.amount (order from c m) le in
        let left : (t : Bytes) → sum_coins t cs ≤ need t m1 = λ t.
          let (_, u, _) = distribute_lem a t from c.denom c.amount (order from c m) le in
          omega (arith, u, h t, same t) in
        let (p, q, r) = distribute_coins_lem a d from cs m1 left in
        (
          ground (arith, sent-append a d es fs, x, p),
          omega (arith, q, y, same d),
          omega
              (arith, received-append a d es fs, z, r, need_of_permutation a d (is_order from c m)),
        )

    -- Where the needs cover the inputs, every account sends its inputs, and the needs of an account
    -- go down by what it receives.
    pub distribute_inputs_lem :
        (a d : Bytes) (ps : List Party) (m : Needs)
        → ((x : Bytes) → sum_parties x ps ≤ need x m)
        → (sent a d (distribute_inputs {V = V} order ps m).0 ≡ sum_for a d ps)
          × (need d (distribute_inputs {V = V} order ps m).1 + sum_parties d ps ≡ need d m)
          × (need_of a d (distribute_inputs {V = V} order ps m).1
                + received a d (distribute_inputs {V = V} order ps m).0
              ≡ need_of a d m)
    unfolding distribute_inputs
    distribute_inputs_lem a d [] m h = ground arith
    distribute_inputs_lem a d (p ∷ ps) m h =
        let es = (distribute_coins {V = V} order p.address p.coins m).0 in
        let m1 = (distribute_coins {V = V} order p.address p.coins m).1 in
        let fs = (distribute_inputs {V = V} order ps m1).0 in
        let le : (t : Bytes) → sum_coins t p.coins ≤ need t m = λ t. omega (arith, h t) in
        let (x, y, z) = distribute_coins_lem a d p.address p.coins m le in
        let left : (t : Bytes) → sum_parties t ps ≤ need t m1 = λ t.
          let (_, u, _) = distribute_coins_lem a t p.address p.coins m le in
          omega (arith, u, h t) in
        let (u, v, w) = distribute_inputs_lem a d ps m1 left in
        (
          ground (arith, sent-append a d es fs, x, u),
          omega (arith, v, y),
          omega (arith, received-append a d es fs, z, w),
        )
