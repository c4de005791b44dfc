-- ===== src/Auth/Handlers/Update.antt =====
-- `handleUpdateAuthority` of modules/auth/module.go and the accounts of the store.
use punnet_sdk.Base.{◌≡◌, refl, ◌∙◌, true, false, some, ok}
use punnet_sdk.Base.Bytes.{Bytes, bytes_eq, eq_refl}
use punnet_sdk.Base.Dict.{lookup, lookup-insert}
use punnet_sdk.Types.AccountName
use punnet_sdk.Types.Authority.{Account}
use punnet_sdk.Store.Objects
use punnet_sdk.Store.Accounts
use punnet_sdk.Store.Accounts.{AccountStore, check_name}
use punnet_sdk.Capability.Accounts.{get_account}
use punnet_sdk.Runtime.Context.{Context}
use punnet_sdk.Auth.Messages.{MsgUpdateAuthority, update_authority}
use punnet_sdk.Auth.Handlers.{handle_update_authority, updated}

read_form :
    (s : AccountStore) (name : Bytes) (a : Account)
    → s.closed ≡ false
    → AccountName.is_valid name ≡ true
    → lookup name s.entries ≡ some a
    → get_account s name ≡ ok a
unfolding get_account check_name Accounts.get Objects.get
read_form s name a o v e = rw (v, o, e) refl

-- The handler of an update by the account itself leaves the account in the store with the new
-- authority, before any effect is executed: also in a read-only context, and also where the
-- authority is not valid and the handler fails. The store is open and holds the account, whose name is
-- valid.
pub update_in_place :
    (s : AccountStore) (c : Context Account) (m : MsgUpdateAuthority) (a : Account)
    → s.closed ≡ false
    → AccountName.is_valid m.name ≡ true
    → lookup m.name s.entries ≡ some a
    → bytes_eq m.name c.account ≡ true
    → get_account (handle_update_authority s c (update_authority m)).1 m.name
      ≡ ok (updated a m.new_authority c.header.time)
unfolding handle_update_authority
update_in_place s c m a o v e t =
    rw (t, read_form s m.name a o v e)
      (read_form _ m.name (updated a m.new_authority c.header.time) o v (
        lookup-insert m.name m.name (updated a m.new_authority c.header.time) s.entries
        ∙ rw (eq_refl m.name) refl))
