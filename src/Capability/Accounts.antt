-- ===== src/Capability/Accounts.antt =====
-- capability/account.go: `accountCapability`. The time at which an account is created is an argument.
use punnet_sdk.Base.{
  ℕ, ◌≡◌, refl, ◌∙◌, ap, Bool, true, false, not, length, ◌==◌, if◌then◌else◌, some, Outcome, ok,
  err, ◌>>=◌, ◌>>◌, add_u64, invalid_account, account_exists, not_found, empty_key, arith,
}
use punnet_sdk.Base.Bytes.{Bytes, bytes_eq, eq_refl}
use punnet_sdk.Base.Dict.{lookup, insert, lookup-insert}
use punnet_sdk.Types.AccountName
use punnet_sdk.Types.Signature.{Curves}
use punnet_sdk.Types.Authority.{Account, new_account, validate_account}
use punnet_sdk.Types.Authorization.{Authorization, verify_authorization}
use punnet_sdk.Store.Objects
use punnet_sdk.Store.Accounts
use punnet_sdk.Store.Accounts.{AccountStore, Step, check_name, mutate}

unfoldable pub get_account : AccountStore → Bytes → Outcome Account
get_account s name = do check_name name; Accounts.get s name

-- The steps of `CreateAccount`, `UpdateAccount` and `IncrementNonce` behind their reads.
abbrev pub created :
    AccountStore → Account → Outcome (Unit {0}) × AccountStore → Outcome Account × AccountStore
created s a (ok _, t) = (ok a, t)
created s a (err e, t) = (err e, t)

abbrev pub create_new :
    AccountStore → Bytes → Bytes → ℕ → Outcome Bool → Outcome Account × AccountStore
create_new s name pub_key now (err e) = (err e, s)
create_new s name pub_key now (ok true) = (err account_exists, s)
create_new s name pub_key now (ok false) =
    let a = new_account name pub_key now in created s a (Accounts.set s a)

unfoldable pub create_account : AccountStore → Bytes → Bytes → ℕ → Outcome Account × AccountStore
create_account s name pub_key now =
    if not (AccountName.is_valid name)
    then (err invalid_account, s)
    else if length pub_key == 0
    then (err empty_key, s)
    else create_new s name pub_key now (Accounts.has s name)

abbrev pub update_old : AccountStore → Account → Outcome Bool → Step
update_old s a (err e) = (err e, s)
update_old s a (ok false) = (err not_found, s)
update_old s a (ok true) = Accounts.set s a

abbrev pub update_valid : AccountStore → Account → Outcome (Unit {0}) → Step
update_valid s a (err e) = (err e, s)
update_valid s a (ok _) = update_old s a (Accounts.has s a.name)

unfoldable pub update_account : AccountStore → Account → Step
update_account s a = update_valid s a (validate_account a)

unfoldable pub delete_account : AccountStore → Bytes → Step
delete_account s name =
    if not (AccountName.is_valid name) then (err invalid_account, s) else Accounts.delete s name

unfoldable pub has_account : AccountStore → Bytes → Outcome Bool
has_account s name = do check_name name; Accounts.has s name

-- `VerifyAuthorization`: its account getter reads the store.
unfoldable pub verify : Curves → AccountStore → Account → Authorization → Bytes → Outcome (Unit {0})
verify curves s account auth message =
    verify_authorization curves message (Accounts.get s) auth account

-- The nonce of the store's object goes up, then the object is stored.
unfoldable pub raised : Account → Account
raised a = record a { nonce = add_u64 a.nonce 1 }

abbrev pub increment_read : AccountStore → Bytes → Outcome Account → Step
increment_read s name (err e) = (err e, s)
increment_read s name (ok a) = Accounts.set (mutate s name (raised a)) (raised a)

unfoldable pub increment_nonce : AccountStore → Bytes → Step
unfolding raised
increment_nonce s name =
    if not (AccountName.is_valid name)
    then (err invalid_account, s)
    else increment_read s name (Accounts.get s name)

unfoldable pub get_nonce : AccountStore → Bytes → Outcome ℕ
get_nonce s name = do check_name name; a ← Accounts.get s name; ok a.nonce

-- The store is open, and holds valid accounts under their names.
abbrev pub IsAccounts : AccountStore → Type 0
IsAccounts s =
    (s.closed ≡ false)
    × ((name : Bytes) (a : Account)
        → lookup name s.entries ≡ some a
        → (a.name ≡ name) × (validate_account a ≡ ok tt))

get_nonce_form :
    (s : AccountStore) (name : Bytes) (a : Account)
    → s.closed ≡ false
    → AccountName.is_valid name ≡ true
    → lookup name s.entries ≡ some a
    → get_nonce s name ≡ ok a.nonce
unfolding get_nonce check_name Accounts.get Objects.get
get_nonce_form s name a o v e = rw (v, o, e) refl

get_form :
    (s : AccountStore) (name : Bytes) (a : Account)
    → s.closed ≡ false
    → AccountName.is_valid name ≡ true
    → lookup name s.entries ≡ some a
    → Accounts.get s name ≡ ok a
unfolding check_name Accounts.get Objects.get
get_form s name a o v e = rw (v, o, e) refl

set_form :
    (s : AccountStore) (a : Account)
    → s.closed ≡ false
    → validate_account a ≡ ok tt
    → Accounts.set s a ≡ (ok tt, record { entries = insert a.name a s.entries; closed = false })
unfolding Accounts.set Objects.set
set_form s a o v = rw (v, o) refl

raised_valid : (a : Account) → validate_account (raised a) ≡ validate_account a
unfolding raised validate_account
raised_valid a = refl

raised_name : (a : Account) → (raised a).name ≡ a.name
unfolding raised
raised_name a = refl

raised_nonce : (a : Account) → (raised a).nonce ≡ add_u64 a.nonce 1
unfolding raised
raised_nonce a = refl

-- Behind the increment, the store holds the raised account.
after : AccountStore → Bytes → Account → AccountStore
after s name a = record {
  entries = insert name (raised a) (insert name (raised a) s.entries);
  closed = false;
}

increment_form :
    (s : AccountStore) (name : Bytes) (a : Account)
    → IsAccounts s
    → AccountName.is_valid name ≡ true
    → lookup name s.entries ≡ some a
    → increment_nonce s name ≡ (ok tt, after s name a)
unfolding increment_nonce after
increment_form s name a h v e =
    let (same, valid) = h.1 name a e in
    rw
      (
        v,
        get_form s name a h.0 v e,
        set_form (mutate s name (raised a)) (raised a) h.0 (raised_valid a ∙ valid),
        raised_name a ∙ same,
      )
      refl

lookup-after :
    (s : AccountStore) (name other : Bytes) (a : Account)
    → lookup other (after s name a).entries
      ≡ (if bytes_eq name other then some (raised a) else lookup other s.entries)
unfolding after
lookup-after s name other a = ground (
  arith,
  lookup-insert name other (raised a) (insert name (raised a) s.entries),
  lookup-insert name other (raised a) s.entries,
)

-- On an open store that holds valid accounts under their names, the nonce of an account that is stored
-- goes up by one, modulo 2 ^ 64, and nothing else of any account changes.
pub increment_nonce_lem :
    (s : AccountStore) (name other : Bytes) (a : Account)
    → IsAccounts s
    → AccountName.is_valid name ≡ true
    → lookup name s.entries ≡ some a
    → ((increment_nonce s name).0 ≡ ok tt)
      × (get_nonce (increment_nonce s name).1 name ≡ ok (add_u64 a.nonce 1))
      × (lookup other (increment_nonce s name).1.entries
          ≡ (if bytes_eq name other then some (raised a) else lookup other s.entries))
unfolding after
increment_nonce_lem s name other a h v e = rw (increment_form s name a h v e) (
  refl,
  get_nonce_form (after s name a) name (raised a) refl v
        (lookup-after s name name a ∙ rw (eq_refl name) refl)
      ∙ ap ok (raised_nonce a),
  lookup-after s name other a,
)
