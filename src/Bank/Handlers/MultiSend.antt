-- ===== src/Bank/Handlers/MultiSend.antt =====
-- `handleMultiSend` of modules/bank/module.go.
use punnet_sdk.Base.{ℕ, ◌≡◌, not, List, [], ◌∷◌, ok, fail_if, >>=-eq-ok, arith, wrong_sender}
use punnet_sdk.Base.Bytes.{Bytes}
use punnet_sdk.Effects.Effect.{Effect}
use punnet_sdk.Store.Balance.{BalanceStore}
use punnet_sdk.Bank.Messages.{MsgMultiSend, validate_multi_send, multi_send_signers}
use punnet_sdk.Bank.Messages.Totals.{sum_parties, ArePayments, validate_multi_send_balanced}
use punnet_sdk.Bank.Handlers.{
  RangeOrder, handle_multi_send, is_signer, check_inputs, output_needs, distribute_inputs,
  multi_send_event,
}
use punnet_sdk.Bank.Handlers.Needs.{IsRangeOrder, need_of-le, output_needs_lem, sum_for, need}
use punnet_sdk.Bank.Handlers.Distribute.{
  sent, received, sent-append, received-append, distribute_inputs_lem,
}

-- Whatever the order in which the accounts that need coins are met, the effects of a valid multi-
-- send of uint64 amounts that is handled without an error take from every account, in each
-- denomination, the sum of its inputs and give it the sum of its outputs.
pub handle_multi_send_lem :
    {V : Type 0} (order : RangeOrder) (s : BalanceStore) (account : Bytes) (height : ℕ)
    (m : MsgMultiSend) (es : List (Effect V)) (a d : Bytes)
    → IsRangeOrder order
    → ArePayments m.inputs
    → ArePayments m.outputs
    → validate_multi_send m ≡ ok tt
    → handle_multi_send order s account height m ≡ ok es
    → (sent a d es ≡ sum_for a d m.inputs) × (received a d es ≡ sum_for a d m.outputs)
unfolding handle_multi_send multi_send_event
handle_multi_send_lem {V} order s account height m es a d is_order u v valid e =
    let (_, _, e1) =
      >>=-eq-ok (fail_if (not (is_signer account (multi_send_signers m))) wrong_sender) _ e in
    let (_, _, e2) = >>=-eq-ok (check_inputs s m.inputs) _ e1 in
    let needs = output_needs [] m.outputs in
    let fs = (distribute_inputs {V = V} order m.inputs needs).0 in
    let covered : (t : Bytes) → need t needs ≡ sum_parties t m.inputs = λ t.
      let (x, y) = validate_multi_send_balanced m t u v valid in
      let (z, _) = output_needs_lem a t [] m.outputs (omega (arith, x, y)) in omega (arith, x, z) in
    let (x, y) = validate_multi_send_balanced m d u v valid in
    let (_, z) = output_needs_lem a d [] m.outputs (omega (arith, x, y)) in
    let (f, g, k) =
      distribute_inputs_lem V order is_order a d m.inputs needs (λ t. omega (arith, covered t)) in
    let none_left = need_of-le a d (distribute_inputs {V = V} order m.inputs needs).1 in
    (
      ground (arith, e2, sent-append a d fs (multi_send_event m height ∷ []), f),
      ground (
        arith,
        e2,
        received-append a d fs (multi_send_event m height ∷ []),
        g,
        k,
        z,
        none_left,
        covered d,
      ),
    )
