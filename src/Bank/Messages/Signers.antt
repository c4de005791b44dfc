-- ===== src/Bank/Messages/Signers.antt =====
-- `MsgMultiSend.GetSigners` of modules/bank/messages.go.
use punnet_sdk.Base.{ℕ, ◌+◌, ◌≡◌, Bool, true, false, ◌||◌, List, [], ◌∷◌, if◌then◌else◌, arith}
use punnet_sdk.Base.Bytes.{Bytes, bytes_eq, eq_iff}
use punnet_sdk.Base.Dict.{Dict, lookup, insert, get_or, lookup-insert}
use punnet_sdk.Bank.Messages.{Party, MsgMultiSend, collect_signers, multi_send_signers}

-- How often a name is listed, and whether a party has it.
abbrev pub occurrences : Bytes → List Bytes → ℕ
occurrences a [] = 0
occurrences a (x ∷ xs) = (if bytes_eq x a then 1 else 0) + occurrences a xs

abbrev pub is_party : Bytes → List Party → Bool
is_party a [] = false
is_party a (p ∷ ps) = bytes_eq p.address a || is_party a ps

collect_signers_lem :
    (a : Bytes) (seen : Dict Bool) (ps : List Party)
    → occurrences a (collect_signers seen ps)
      ≡ (if get_or false (lookup a seen) then 0 else if is_party a ps then 1 else 0)
unfolding collect_signers
collect_signers_lem a seen [] = ground arith
collect_signers_lem a seen (p ∷ ps) = ground (
  arith,
  eq_iff p.address a,
  lookup-insert p.address a true seen,
  collect_signers_lem a seen ps,
  collect_signers_lem a (insert p.address true seen) ps,
)

-- The signers of a multi-send are the addresses of its inputs, each listed once.
multi_send_signers_lem :
    (m : MsgMultiSend) (a : Bytes)
    → occurrences a (multi_send_signers m) ≡ (if is_party a m.inputs then 1 else 0)
unfolding multi_send_signers lookup
multi_send_signers_lem m a = collect_signers_lem a [] m.inputs
