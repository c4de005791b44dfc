-- ===== src/Effects/Execute/Settled.antt =====
-- The execution of a payment of one coin with effects behind it that change no balance.
use punnet_sdk.Base.{
  ℕ, ◌+◌, ◌-◌, ◌≤◌, ◌≡◌, refl, sym, ap, ◌∙◌, subst, false, List, [], ◌∷◌, Outcome, ok, err, ltb,
  max_u64, arith, All, inl, inr,
}
use punnet_sdk.Base.Bytes.{Bytes, bytes_eq, eq_iff}
use punnet_sdk.Base.Dict.{Dict}
use punnet_sdk.Types.Coin.{Coin}
use punnet_sdk.Types.Coins.{Coins}
use punnet_sdk.Store.Memory
use punnet_sdk.Store.Prefix.Isolated.{not_empty}
use punnet_sdk.Store.Balance.{BalanceStore, Step}
use punnet_sdk.Store.Balance.Amounts.{
  IsName, IsStore, stored, put, stored-le, stored-put, put-IsStore, add_amount_lem, sub_amount_lem,
}
use punnet_sdk.Effects.Effect.{
  Effect, writes, transfers, emits, deletes, validate, effect_key, full_key,
}
use punnet_sdk.Effects.Execute.{
  Event, State, Run, pay_coins, execute, execute_effects, execute_effect, execute_transfer,
  execute_event, execute_write, execute_delete, then_run,
}
use punnet_sdk.Effects.Execute.Pay.{Balanced, Paid, IsPayable, pay_coins_lem}

Paid-ok :
    (s : BalanceStore) (from to : Bytes) (coins : Coins) (r : Step)
    → Paid s from to coins r
    → r.0 ≡ ok tt
    → Balanced s from to coins coins r.1
Paid-ok s from to coins r (good, inl (e, b)) h = b
Paid-ok s from to coins r (good, inr (done, c, rest, x, split, e, b)) h = ground (arith, h, e)

-- An effect that is executed without an error in every state and changes no balance.
abbrev pub IsHarmless : {V : Type 0} → Effect V → Type 0
IsHarmless e =
    (s : State) → ((execute_effect e s).0 ≡ ok tt) × ((execute_effect e s).1.balances ≡ s.balances)

module _ (from to : Bytes) (c : Coin) (s : BalanceStore) (v : IsName from) (w : IsName to)
    (payable : IsPayable c) (good : IsStore s) (o : s.closed ≡ false)
    (has : c.amount ≤ stored s from c.denom) (room : stored s to c.denom + c.amount ≤ max_u64) where
  pay_one : (pay_coins from to (c ∷ []) s).0 ≡ ok tt
  unfolding pay_coins
  pay_one =
      let u = put s from c.denom (stored s from c.denom - c.amount) in
      let good' =
        put-IsStore s from c.denom (stored s from c.denom - c.amount) v
          (omega (arith, stored-le s from c.denom good v)) good in
      let fits : ltb (max_u64 - c.amount) (stored u to c.denom) ≡ false = ground (
        arith,
        has,
        room,
        stored-put s from c.denom to c.denom (stored s from c.denom - c.amount) v w,
        eq_iff from to,
      ) in
      rw
        (
          sub_amount_lem s from c.denom good c.amount v payable.0 o payable.1,
          ltb_false (stored s from c.denom) c.amount has,
          add_amount_lem u to c.denom good' c.amount w payable.0 o payable.1,
          fits,
        )
        refl
    where
      ltb_false : (m n : ℕ) → n ≤ m → ltb m n ≡ false
      ltb_false m n h = ground (arith, h)

  paid_one : Balanced s from to (c ∷ []) (c ∷ []) (pay_coins from to (c ∷ []) s).1
  paid_one =
      Paid-ok s from to (c ∷ []) (pay_coins from to (c ∷ []) s)
        (pay_coins_lem from to v w (c ∷ []) s (payable, tt) good o) pay_one

then_run-ok : (r : Run) (f : State → Run) → r.0 ≡ ok tt → then_run r f ≡ f r.1
then_run-ok (ok u, s) f h = refl
then_run-ok (err e, s) f h = cc

-- The result of `Execute` from its loop.
abbrev result_of : Run → Outcome (List Event) × State
result_of x = let (r, s') = x in elim r [ ok _ ↦ (ok s'.events, s') | err e ↦ (err e, s') ]

result_of-ok : (x : Run) → x.0 ≡ ok tt → result_of x ≡ (ok x.1.events, x.1)
result_of-ok (ok u, s) h = refl
result_of-ok (err e, s) h = cc

module _ (V : Type 0) where
  execute_effects-harmless :
      (es : List (Effect V)) (s : State)
      → All IsHarmless es
      → ((execute_effects es s).0 ≡ ok tt) × ((execute_effects es s).1.balances ≡ s.balances)
  unfolding execute_effects
  execute_effects-harmless [] s h = (refl, refl)
  execute_effects-harmless (e ∷ es) s h =
      let (p, q) = h.0 s in
      let rest = execute_effects-harmless es (execute_effect e s).1 h.1 in
      rw (then_run-ok (execute_effect e s) (execute_effects es) p) (rest.0, rest.1 ∙ q)

  pub emits-IsHarmless :
      (kind : Bytes) (attributes : Dict Bytes)
      → bytes_eq kind [] ≡ false
      → IsHarmless {V = V} (emits kind attributes)
  unfolding execute_effect execute_event validate
  emits-IsHarmless kind attributes h s = rw (h) (refl, refl)

  pub writes-IsHarmless :
      (store k : Bytes) (value : V)
      → validate (writes store k value) ≡ ok tt
      → IsHarmless (writes store k value)
  unfolding execute_effect execute_write effect_key full_key Memory.set Memory.validate_key
  writes-IsHarmless store k value h s = rw (h, not_empty store 47 k) (refl, refl)

  pub deletes-IsHarmless :
      (store k : Bytes)
      → validate {V = V} (deletes store k) ≡ ok tt
      → IsHarmless {V = V} (deletes store k)
  unfolding execute_effect execute_delete effect_key full_key Memory.delete Memory.validate_key
  deletes-IsHarmless store k h s = rw (h, not_empty store 47 k) (refl, refl)

  execute-ok :
      (es : List (Effect V)) (st : State)
      → (execute_effects es (record st { events = [] })).0 ≡ ok tt
      → execute es st ≡ (
        ok (execute_effects es (record st { events = [] })).1.events,
        (execute_effects es (record st { events = [] })).1,
      )
  unfolding execute
  execute-ok es st h = result_of-ok (execute_effects es (record st { events = [] })) h

  transfer_runs :
      (from to : Bytes) (coins : Coins) (s : State)
      → validate {V = V} (transfers from to coins) ≡ ok tt
      → IsName from
      → IsName to
      → execute_effect {V = V} (transfers from to coins) s ≡ (
        (pay_coins from to coins s.balances).0,
        record s { balances = (pay_coins from to coins s.balances).1 },
      )
  unfolding execute_effect execute_transfer
  transfer_runs from to coins s valid v w = rw (valid, v, w) refl

  -- A payment of a coin that the sender has and the receiver has room for, with harmless effects behind it.
  pub execute-settled :
      (from to : Bytes) (c : Coin) (rest : List (Effect V)) (st : State)
      → validate {V = V} (transfers from to (c ∷ [])) ≡ ok tt
      → All IsHarmless rest
      → IsName from
      → IsName to
      → IsPayable c
      → IsStore st.balances
      → st.balances.closed ≡ false
      → c.amount ≤ stored st.balances from c.denom
      → stored st.balances to c.denom + c.amount ≤ max_u64
      → (events : List Event) × ((execute (transfers from to (c ∷ []) ∷ rest) st).0 ≡ ok events)
        × Balanced st.balances from to
            (c ∷ [])
            (c ∷ [])
            (execute (transfers from to (c ∷ []) ∷ rest) st).1.balances
  unfolding execute_effects
  execute-settled from to c rest st valid harmless v w payable good o has room =
      let paid = pay_coins from to (c ∷ []) st.balances in
      let es = transfers from to (c ∷ []) ∷ rest in
      let done : State = record { store = st.store; balances = paid.1; events = [] } in
      let runs =
        transfer_runs from to (c ∷ []) (record st { events = [] }) valid v w
        ∙ ap (λ r. (r, done)) (pay_one from to c st.balances v w payable good o has room) in
      let next = ap (λ r. then_run r (execute_effects rest)) runs in
      let (p, q) = execute_effects-harmless rest done harmless in
      let all : (execute_effects es (record st { events = [] })).0 ≡ ok tt =
        ap (λ r. r.0) next ∙ p in
      rw (execute-ok es st all) (
        _,
        refl,
        subst (λ b. Balanced st.balances from to (c ∷ []) (c ∷ []) b)
            (sym (ap (λ r. r.1.balances) next ∙ q))
            (paid_one from to c st.balances v w payable good o has room),
      )
