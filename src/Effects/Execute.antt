-- ===== src/Effects/Execute.antt =====
-- effects/executor.go: the execution of effects, over the memory store of store/memory_store.go and the
-- balance store of store/balance_store.go behind the adapters of runtime/application.go. A call
-- returns its error, or none, with the state that it leaves.
pub mod Pay
pub mod Settled
use punnet_sdk.Base.{
  ℕ, Bool, true, false, not, List, [], ◌∷◌, ◌++◌, Option, none, some, Outcome, ok, err, Error,
  fail_if, ◌>>=◌, ◌>>◌, length, ◌==◌, if◌then◌else◌, empty_key, not_found, invalid_account,
}
use punnet_sdk.Base.Bytes.{Bytes, codes}
use punnet_sdk.Base.Dict.{Dict}
use punnet_sdk.Types.AccountName
use punnet_sdk.Types.Coins.{Coins}
use punnet_sdk.Store.Memory
use punnet_sdk.Store.Memory.{Memory}
use punnet_sdk.Store.Balance
use punnet_sdk.Store.Balance.{BalanceStore, Step, writing}
use punnet_sdk.Effects.Effect.{
  Effect, reads, writes, transfers, emits, deletes, validate, effect_key,
}

pub record Event : Type 0 where
  pub kind : Bytes
  pub attributes : Dict Bytes

-- The two stores of an executor, and the events of the `ExecutionResult`.
pub record State : Type 0 where
  pub store : Memory
  pub balances : BalanceStore
  pub events : List Event

abbrev pub Run : Type 0
Run = Outcome (Unit {0}) × State

-- `Has` of the adapter: an error is the answer false.
abbrev pub has_or_false : Outcome Bool → Bool
has_or_false (ok b) = b
has_or_false (err e) = false

unfoldable pub execute_read : Bytes → State → Run
execute_read k s =
    if length k == 0
    then (err empty_key, s)
    else if not (has_or_false (Memory.has s.store k))
    then (err not_found, s)
    else (ok tt, s)

abbrev pub with_store : State → Outcome (Unit {0}) × Memory → Run
with_store s (r, m) = (r, record s { store = m })

unfoldable pub execute_write : Bytes → State → Run
execute_write k s =
    if length k == 0
    then (err empty_key, s)
    else with_store s (Memory.set s.store k (codes "placeholder"))

unfoldable pub execute_delete : Bytes → State → Run
execute_delete k s =
    if length k == 0 then (err empty_key, s) else with_store s (Memory.delete s.store k)

-- The loop over the coins: `SubBalance`, then `AddBalance`.
unfoldable pub pay_coins : Bytes → Bytes → Coins → BalanceStore → Step
pay_coins from to [] b = (ok tt, b)
pay_coins from to (c ∷ cs) b =
    let taken = Balance.sub_amount b from c.denom c.amount in
    writing taken.0 taken.1
      (λ b1.
        let added = Balance.add_amount b1 to c.denom c.amount in
        writing added.0 added.1 (λ b2. pay_coins from to cs b2) (λ e b2. (err e, b2)))
      (λ e b1. (err e, b1))

abbrev pub with_balances : State → Step → Run
with_balances s (r, b) = (r, record s { balances = b })

unfoldable pub execute_transfer : Bytes → Bytes → Coins → State → Run
unfolding pay_coins
execute_transfer from to amount s =
    if not (AccountName.is_valid from)
    then (err invalid_account, s)
    else if not (AccountName.is_valid to)
    then (err invalid_account, s)
    else with_balances s (pay_coins from to amount s.balances)

unfoldable pub execute_event : Bytes → Dict Bytes → State → Run
execute_event kind attributes s =
    (ok tt, record s { events = s.events ++ record { kind = kind; attributes = attributes } ∷ [] })

-- The rest of a call behind one that can fail: without an error only.
abbrev pub then_run : Run → (State → Run) → Run
then_run (ok _, s) f = f s
then_run (err e, s) f = (err e, s)

-- The error read first.
abbrev pub first_error : Outcome (Unit {0}) → Outcome (Unit {0}) → Outcome (Unit {0})
first_error (ok _) r = r
first_error (err e) r = err e

module _ {V : Type 0} where
  -- The switch on the type of the effect, which has the key `k`.
  unfoldable pub execute_by_type : Bytes → Effect V → State → Run
  unfolding execute_read execute_write execute_delete execute_transfer execute_event
  execute_by_type k (reads _ _ _) s = execute_read k s
  execute_by_type k (writes _ _ _) s = execute_write k s
  execute_by_type k (transfers from to amount) s = execute_transfer from to amount s
  execute_by_type k (emits kind attributes) s = execute_event kind attributes s
  execute_by_type k (deletes _ _) s = execute_delete k s

  unfoldable pub execute_effect : Effect V → State → Run
  unfolding execute_by_type
  execute_effect e s = then_run (validate e, s) (execute_by_type (effect_key e) e)

  -- `Execute`, from the state in which the loop starts: it stops at the first error.
  unfoldable pub execute_effects : List (Effect V) → State → Run
  unfolding execute_effect
  execute_effects [] s = (ok tt, s)
  execute_effects (e ∷ es) s = then_run (execute_effect e s) (execute_effects es)

  -- `Execute`: the events start empty, and an error gives no result.
  unfoldable pub execute : List (Effect V) → State → Outcome (List Event) × State
  unfolding execute_effects
  execute es s =
      let (r, s') = execute_effects es (record s { events = [] }) in
      elim r [ ok _ ↦ (ok s'.events, s') | err e ↦ (err e, s') ]

  -- A batch of `ExecuteParallel`: every effect runs, in the order in which the goroutines come to
  -- run, and the first error of that order is read from the channel.
  unfoldable pub run_batch : List (Effect V) → State → Run
  unfolding execute_effect
  run_batch [] s = (ok tt, s)
  run_batch (e ∷ es) s =
      let (r, s1) = execute_effect e s in let (r', s2) = run_batch es s1 in (first_error r r', s2)

  -- `ExecuteParallel` for an order of each batch.
  unfoldable pub run_batches :
      (List (Effect V) → List (Effect V)) → List (List (Effect V)) → State → Run
  unfolding run_batch
  run_batches order [] s = (ok tt, s)
  run_batches order (batch ∷ batches) s =
      then_run (run_batch (order batch) s) (run_batches order batches)
