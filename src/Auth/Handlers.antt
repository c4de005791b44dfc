-- ===== src/Auth/Handlers.antt =====
-- modules/auth/module.go: the message handlers and the queries. `handleUpdateAuthority` changes the
-- account that it has read, which is the store's own object, so the handlers return the accounts too.
pub mod Update
use punnet_sdk.Base.{
  ℕ, Bool, true, false, not, List, [], ◌∷◌, if◌then◌else◌, Outcome, ok, err, fail_if, ◌>>=◌, ◌>>◌,
  wrong_sender, wrong_message, account_exists, not_found, invalid_account,
}
use punnet_sdk.Base.Bytes.{Bytes, codes, bytes_eq}
use punnet_sdk.Types.AccountName
use punnet_sdk.Types.Authority.{Account, Authority, validate_account}
use punnet_sdk.Effects.Effect.{Effect, writes, deletes, emits}
use punnet_sdk.Store.Accounts.{AccountStore, mutate}
use punnet_sdk.Capability.Accounts.{has_account, get_account, get_nonce}
use punnet_sdk.Runtime.Context.{Context}
use punnet_sdk.Auth.Messages.{
  MsgCreateAccount, MsgUpdateAuthority, MsgDeleteAccount, AuthMsg, create_account, update_authority,
  delete_account,
}
use punnet_sdk.Bank.Handlers.{decimal}

-- The effects of a handler, with the accounts behind it.
abbrev pub Handled : Type 0
Handled = Outcome (List (Effect Account)) × AccountStore

abbrev pub account_event : Bytes → Bytes → ℕ → Effect Account
account_event kind name height =
    emits kind ((codes "account", name) ∷ (codes "height", decimal height) ∷ [])

unfoldable pub handle_create_account :
    AccountStore → Context Account → AuthMsg → Outcome (List (Effect Account))
handle_create_account s c (create_account m) = do
  fail_if (not (bytes_eq m.name c.account)) wrong_sender
  exists ← has_account s m.name
  fail_if exists account_exists
  let account : Account = record {
    name = m.name;
    authority = m.authority;
    nonce = 0;
    created_at = c.header.time;
    updated_at = c.header.time;
  } in
      validate_account account
      >> ok (
          writes (codes "account") m.name account
          ∷ account_event (codes "account.created") m.name c.header.height
          ∷ [])
handle_create_account s c _ = err wrong_message

unfoldable pub updated : Account → Authority → ℕ → Account
updated a authority now = record a { authority = authority; updated_at = now }

abbrev pub update_effects :
    Context Account
    → MsgUpdateAuthority
    → Account
    → Outcome (Unit {0})
    → Outcome (List (Effect Account))
update_effects c m a (err e) = err e
update_effects c m a (ok _) = ok (
    writes (codes "account") m.name a
    ∷ account_event (codes "account.authority_updated") m.name c.header.height
    ∷ [])

abbrev pub update_read :
    AccountStore → Context Account → MsgUpdateAuthority → Outcome Account → Handled
update_read s c m (err e) = (err e, s)
update_read s c m (ok a) =
    let new = updated a m.new_authority c.header.time in
    (update_effects c m new (validate_account new), mutate s m.name new)

unfoldable pub handle_update_authority : AccountStore → Context Account → AuthMsg → Handled
unfolding updated
handle_update_authority s c (update_authority m) =
    if not (bytes_eq m.name c.account)
    then (err wrong_sender, s)
    else update_read s c m (get_account s m.name)
handle_update_authority s c _ = (err wrong_message, s)

unfoldable pub handle_delete_account :
    AccountStore → Context Account → AuthMsg → Outcome (List (Effect Account))
handle_delete_account s c (delete_account m) = do
  fail_if (not (bytes_eq m.name c.account)) wrong_sender
  exists ← has_account s m.name
  fail_if (not exists) not_found
  ok (
      deletes (codes "account") m.name
      ∷ account_event (codes "account.deleted") m.name c.header.height
      ∷ [])
handle_delete_account s c _ = err wrong_message

-- The text of an account, by `%v`, is a parameter.
unfoldable pub handle_query_account : (Account → Bytes) → AccountStore → Bytes → Outcome Bytes
handle_query_account text s name = do
  fail_if (not (AccountName.is_valid name)) invalid_account
  account ← get_account s name
  ok (text account)

unfoldable pub handle_query_nonce : AccountStore → Bytes → Outcome Bytes
handle_query_nonce s name = do
  fail_if (not (AccountName.is_valid name)) invalid_account
  nonce ← get_nonce s name
  ok (decimal nonce)
