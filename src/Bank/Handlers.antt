-- ===== src/Bank/Handlers.antt =====
-- modules/bank/module.go: the message handlers, which read balances by the capability and return
-- effects. The transaction's account and the block's height stand for the context.
pub mod Send
pub mod Needs
pub mod Distribute
pub mod MultiSend
pub mod Query
use punnet_sdk.Base.{
  none, some, Option, invalid_query, invalid_account, empty_denom, ℕ, zero, suc, ◌+◌, ◌-◌, ◌/◌, ◌%◌,
  Bool, true, false, not, ◌||◌, ◌==◌, List, [], ◌∷◌, ◌++◌, length, Outcome, ok, err, fail_if, ◌>>=◌,
  ◌>>◌, Error, ltb, if◌then◌else◌, max_u64, add_u64, insufficient_funds, wrong_sender,
}
use punnet_sdk.Base.Bytes.{Bytes, codes, bytes_eq}
use punnet_sdk.Base.Dict.{Dict, lookup, insert, get_or}
use punnet_sdk.Types.AccountName
use punnet_sdk.Types.Coin.{Coin}
use punnet_sdk.Types.Coins.{Coins, new_coins}
use punnet_sdk.Effects.Effect.{Effect, transfers, emits}
use punnet_sdk.Store.Balance.{BalanceStore}
use punnet_sdk.Capability.Balances.{get_balance}
use punnet_sdk.Bank.Messages.{MsgSend, Party, MsgMultiSend, multi_send_signers}

-- `%d` of a uint64, which has 20 digits at most: the digits before `tail`.
unfoldable pub digits : ℕ → ℕ → Bytes → Bytes
digits zero n tail = tail
digits (suc fuel) n tail =
    let rest = digits fuel (n / 10) ((48 + n % 10) ∷ tail) in
    if n / 10 == 0 then (48 + n % 10) ∷ tail else rest

unfoldable pub decimal : ℕ → Bytes
unfolding digits
decimal n = digits 20 n []

module _ {V : Type 0} where
  unfoldable pub send_event : MsgSend → ℕ → Effect V
  unfolding decimal
  send_event m height = emits (codes "bank.send") (
      (codes "from", m.from)
      ∷ (codes "to", m.to)
      ∷ (codes "denom", m.amount.denom)
      ∷ (codes "amount", decimal m.amount.amount)
      ∷ (codes "height", decimal height)
      ∷ [])

  unfoldable pub handle_send : BalanceStore → Bytes → ℕ → MsgSend → Outcome (List (Effect V))
  unfolding send_event
  handle_send s account height m = do
    fail_if (not (bytes_eq m.from account)) wrong_sender
    balance ← get_balance s m.from m.amount.denom
    fail_if (ltb balance m.amount.amount) insufficient_funds
    ok (transfers m.from m.to (new_coins (m.amount ∷ [])) ∷ send_event m height ∷ [])

-- The search for the transaction's account among the signers.
unfoldable pub is_signer : Bytes → List Bytes → Bool
is_signer account [] = false
is_signer account (x ∷ xs) = if bytes_eq x account then true else is_signer account xs

-- The check of the senders' balances.
unfoldable pub check_coins : BalanceStore → Bytes → Coins → Outcome (Unit {0})
check_coins s address [] = ok tt
check_coins s address (c ∷ cs) = do
  balance ← get_balance s address c.denom
  fail_if (ltb balance c.amount) insufficient_funds
  check_coins s address cs

unfoldable pub check_inputs : BalanceStore → List Party → Outcome (Unit {0})
unfolding check_coins
check_inputs s [] = ok tt
check_inputs s (p ∷ ps) = do check_coins s p.address p.coins; check_inputs s ps

-- `outputNeeds`: by account, what it needs of each denomination.
abbrev pub Needs : Type 0
Needs = Dict (Dict ℕ)

-- `outputNeeds[account][coin.Denom] += coin.Amount` for every coin of an output.
unfoldable pub add_needs : Dict ℕ → Coins → Dict ℕ
unfolding add_u64
add_needs m [] = m
add_needs m (c ∷ cs) =
    add_needs (insert c.denom (add_u64 (get_or 0 (lookup c.denom m)) c.amount) m) cs

unfoldable pub output_needs : Needs → List Party → Needs
unfolding add_needs
output_needs m [] = m
output_needs m (p ∷ ps) =
    output_needs (insert p.address (add_needs (get_or [] (lookup p.address m)) p.coins) m) ps

-- The order in which Go ranges over `outputNeeds` for a coin of a sender.
abbrev pub RangeOrder : Type 0
RangeOrder = Bytes → Coin → Needs → Needs

-- What is transferred of `remaining` to an account that needs `needed`.
unfoldable pub to_transfer : ℕ → ℕ → ℕ
to_transfer remaining needed = if ltb needed remaining then needed else remaining

module _ {V : Type 0} where
  -- `for acct, denoms := range outputNeeds`, for one coin: the transfers and the needs left.
  unfoldable pub distribute : Bytes → Bytes → ℕ → Needs → List (Effect V) × Needs
  unfolding to_transfer
  distribute from denom remaining [] = ([], [])
  distribute from denom remaining ((acct, denoms) ∷ m) =
      let needed = get_or 0 (lookup denom denoms) in
      let n = to_transfer remaining needed in
      let e = transfers from acct (record { denom = denom; amount = n } ∷ []) in
      let denoms1 = insert denom (needed - n) denoms in
      let passed = distribute from denom remaining m in
      let served = distribute from denom (remaining - n) m in
      if not (ltb 0 needed)
      then (passed.0, (acct, denoms) ∷ passed.1)
      else if remaining - n == 0
      then (e ∷ [], (acct, denoms1) ∷ m)
      else (e ∷ served.0, (acct, denoms1) ∷ served.1)

  -- The loop over the coins of an input, and the loop over the inputs; each coin meets the needs in
  -- an order of its own.
  unfoldable pub distribute_coins : RangeOrder → Bytes → Coins → Needs → List (Effect V) × Needs
  unfolding distribute
  distribute_coins order from [] m = ([], m)
  distribute_coins order from (c ∷ cs) m =
      let r = distribute from c.denom c.amount (order from c m) in
      let rest = distribute_coins order from cs r.1 in (r.0 ++ rest.0, rest.1)

  unfoldable pub distribute_inputs : RangeOrder → List Party → Needs → List (Effect V) × Needs
  unfolding distribute_coins
  distribute_inputs order [] m = ([], m)
  distribute_inputs order (p ∷ ps) m =
      let r = distribute_coins order p.address p.coins m in
      let rest = distribute_inputs order ps r.1 in (r.0 ++ rest.0, rest.1)

  unfoldable pub multi_send_event : MsgMultiSend → ℕ → Effect V
  unfolding decimal
  multi_send_event m height = emits (codes "bank.multi_send") (
      (codes "num_inputs", decimal (length m.inputs))
      ∷ (codes "num_outputs", decimal (length m.outputs))
      ∷ (codes "height", decimal height)
      ∷ [])

  unfoldable pub handle_multi_send :
      RangeOrder → BalanceStore → Bytes → ℕ → MsgMultiSend → Outcome (List (Effect V))
  unfolding is_signer check_inputs output_needs distribute_inputs multi_send_event
  handle_multi_send order s account height m = do
    fail_if (not (is_signer account (multi_send_signers m))) wrong_sender
    check_inputs s m.inputs
    ok (
        (distribute_inputs order m.inputs (output_needs [] m.outputs)).0
        ++ multi_send_event m height ∷ [])

-- `splitOnce`: the parts before and behind the first separator, `none` where there is none.
abbrev pub behind : ℕ → Option (Bytes × Bytes) → Option (Bytes × Bytes)
behind c none = none
behind c (some (first, second)) = some (c ∷ first, second)

unfoldable pub split_once : ℕ → Bytes → Option (Bytes × Bytes)
split_once sep [] = none
split_once sep (c ∷ cs) =
    let rest = split_once sep cs in if c == sep then some ([], cs) else behind c rest

-- `handleQueryBalance`, from the split on and as a whole.
unfoldable pub query_parts : BalanceStore → Option (Bytes × Bytes) → Outcome Bytes
unfolding decimal
query_parts s none = err invalid_query
query_parts s (some (account, denom)) = do
  fail_if (not (AccountName.is_valid account)) invalid_account
  fail_if (bytes_eq denom []) empty_denom
  balance ← get_balance s account denom
  ok (decimal balance)

unfoldable pub handle_query_balance : BalanceStore → Bytes → Outcome Bytes
unfolding query_parts split_once
handle_query_balance s query = query_parts s (split_once b'/' query)
