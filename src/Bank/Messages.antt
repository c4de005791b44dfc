-- ===== src/Bank/Messages.antt =====
-- modules/bank/messages.go: the messages, their stateless validation and their signers.
pub mod Totals
pub mod Signers
use punnet_sdk.Base.{
  ℕ, ◌-◌, Bool, true, false, not, ◌==◌, List, [], ◌∷◌, map, length, Option, none, some, Outcome, ok,
  err, fail_if, ◌>>=◌, ◌>>◌, Error, ltb, if◌then◌else◌, max_u64, add_u64, invalid_account,
  self_transfer, invalid_amount, amount_not_positive, empty_inputs, empty_outputs, input_overflow,
  output_overflow, totals_differ, extra_output,
}
use punnet_sdk.Base.Bytes.{Bytes, bytes_eq}
use punnet_sdk.Base.Dict.{Dict, lookup, insert, get_or, is_some}
use punnet_sdk.Types.AccountName
use punnet_sdk.Types.Coin
use punnet_sdk.Types.Coin.{Coin}
use punnet_sdk.Types.Coins
use punnet_sdk.Types.Coins.{Coins}

pub record MsgSend : Type 0 where
  pub from : Bytes
  pub to : Bytes
  pub amount : Coin

unfoldable pub validate_send : MsgSend → Outcome (Unit {0})
validate_send m = do
  fail_if (not (AccountName.is_valid m.from)) invalid_account
  fail_if (not (AccountName.is_valid m.to)) invalid_account
  fail_if (bytes_eq m.from m.to) self_transfer
  fail_if (not (Coin.is_valid m.amount)) invalid_amount
  fail_if (not (Coin.is_positive m.amount)) amount_not_positive

unfoldable pub send_signers : MsgSend → List Bytes
send_signers m = m.from ∷ []

-- `Input` and `Output`, which have the same fields and the same `ValidateBasic`.
pub record Party : Type 0 where
  pub address : Bytes
  pub coins : Coins

unfoldable pub validate_party : Party → Outcome (Unit {0})
validate_party p = do
  fail_if (not (AccountName.is_valid p.address)) invalid_account
  fail_if (not (Coins.is_valid p.coins)) invalid_amount
  fail_if (not (Coins.is_all_positive p.coins)) amount_not_positive

pub record MsgMultiSend : Type 0 where
  pub inputs : List Party
  pub outputs : List Party

-- The loops over the inputs and over the outputs that validate each.
unfoldable pub validate_parties : List Party → Outcome (Unit {0})
unfolding validate_party
validate_parties [] = ok tt
validate_parties (p ∷ ps) = do validate_party p; validate_parties ps

-- The inner loop of a total: the coins of one party.
unfoldable pub total_coins : Error → Dict ℕ → Coins → Outcome (Dict ℕ)
unfolding add_u64
total_coins e totals [] = ok totals
total_coins e totals (c ∷ cs) =
    let existing = get_or 0 (lookup c.denom totals) in
    let rest = total_coins e (insert c.denom (add_u64 existing c.amount) totals) cs in
    if ltb (max_u64 - c.amount) existing then err e else rest

unfoldable pub total_parties : Error → Dict ℕ → List Party → Outcome (Dict ℕ)
unfolding total_coins
total_parties e totals [] = ok totals
total_parties e totals (p ∷ ps) = do more ← total_coins e totals p.coins; total_parties e more ps

-- `for denom, inputAmount := range totalInputs`
unfoldable pub check_totals : Dict ℕ → Dict ℕ → Outcome (Unit {0})
check_totals outs [] = ok tt
check_totals outs ((denom, amount) ∷ ins) = do
  fail_if (not (amount == get_or 0 (lookup denom outs))) totals_differ
  check_totals outs ins

-- `for denom := range totalOutputs`
unfoldable pub check_extra : Dict ℕ → Dict ℕ → Outcome (Unit {0})
check_extra ins [] = ok tt
check_extra ins ((denom, amount) ∷ outs) = do
  fail_if (not (is_some (lookup denom ins))) extra_output
  check_extra ins outs

unfoldable pub validate_multi_send : MsgMultiSend → Outcome (Unit {0})
unfolding validate_parties total_parties check_totals check_extra
validate_multi_send m = do
  fail_if (length m.inputs == 0) empty_inputs
  fail_if (length m.outputs == 0) empty_outputs
  validate_parties m.inputs
  validate_parties m.outputs
  total_inputs ← total_parties input_overflow [] m.inputs
  total_outputs ← total_parties output_overflow [] m.outputs
  check_totals total_outputs total_inputs
  check_extra total_inputs total_outputs

-- The loop of `GetSigners`, with the names seen.
unfoldable pub collect_signers : Dict Bool → List Party → List Bytes
collect_signers seen [] = []
collect_signers seen (p ∷ ps) =
    if get_or false (lookup p.address seen)
    then collect_signers seen ps
    else p.address ∷ collect_signers (insert p.address true seen) ps

unfoldable pub multi_send_signers : MsgMultiSend → List Bytes
unfolding collect_signers
multi_send_signers m = collect_signers [] m.inputs
