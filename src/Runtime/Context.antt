-- ===== src/Runtime/Context.antt =====
-- runtime/context.go: the header of a block and the context of a handler. The Go context, and the gas,
-- which no code of the runtime reads, are left out; a zero time is the number 0.
use punnet_sdk.Base.{
  ℕ, Bool, true, false, not, List, [], length, ◌==◌, if◌then◌else◌, Outcome, ok, err, fail_if,
  ◌>>=◌, ◌>>◌, invalid_account, empty_chain_id, zero_height, zero_time, read_only_context,
}
use punnet_sdk.Base.Bytes.{Bytes}
use punnet_sdk.Types.AccountName
use punnet_sdk.Effects.Effect.{Effect, collector_add, collector_add_multiple, collector_collect}

pub record BlockHeader : Type 0 where
  pub height : ℕ
  pub time : ℕ
  pub chain_id : Bytes
  pub proposer : Bytes

unfoldable pub validate_header : BlockHeader → Outcome (Unit {0})
validate_header h = do
  fail_if (h.height == 0) zero_height
  fail_if (length h.chain_id == 0) empty_chain_id
  fail_if (h.time == 0) zero_time

pub record Context (V : Type 0) : Type 0 where
  pub header : BlockHeader
  pub account : Bytes
  pub collector : List (Effect V)
  pub read_only : Bool

module _ {V : Type 0} where
  unfoldable pub new_context : BlockHeader → Bytes → Outcome (Context V)
  unfolding validate_header
  new_context header account = do
    validate_header header
    fail_if (not (AccountName.is_valid account)) invalid_account
    ok (record { header = header; account = account; collector = []; read_only = false })

  unfoldable pub new_read_only_context : BlockHeader → Bytes → Outcome (Context V)
  unfolding new_context
  new_read_only_context header account = do
    c ← new_context header account
    ok (record c { read_only = true })

  abbrev pub with_collector : Context V → Outcome (List (Effect V)) → Outcome (Unit {0}) × Context V
  with_collector c (ok effects) = (ok tt, record c { collector = effects })
  with_collector c (err e) = (err e, c)

  unfoldable pub emit_effect : Context V → Effect V → Outcome (Unit {0}) × Context V
  emit_effect c e =
      if c.read_only
      then (err read_only_context, c)
      else with_collector c (collector_add e c.collector)

  unfoldable pub emit_effects : Context V → List (Effect V) → Outcome (Unit {0}) × Context V
  emit_effects c es =
      if c.read_only
      then (err read_only_context, c)
      else let (r, effects) = collector_add_multiple es c.collector in
        (r, record c { collector = effects })

  unfoldable pub collect_effects : Context V → List (Effect V) × Context V
  collect_effects c =
      let (effects, rest) = collector_collect c.collector in
      (effects, record c { collector = rest })

  unfoldable pub with_account : Context V → Bytes → Outcome (Context V)
  with_account c account = do
    fail_if (not (AccountName.is_valid account)) invalid_account
    ok (record c { account = account; collector = [] })
