-- ===== src/Store/Accounts.antt =====
-- store/account_store.go: the accounts, over an object store. An account that is read is the object that
-- the store holds, so that a caller who changes it changes the store's: `mutate`.
use punnet_sdk.Base.{
  Bool, not, List, [], ◌∷◌, if◌then◌else◌, Outcome, ok, err, fail_if, ◌>>◌, invalid_account,
  store_closed,
}
use punnet_sdk.Base.Bytes.{Bytes}
use punnet_sdk.Base.Dict.{Dict, insert}
use punnet_sdk.Types.AccountName
use punnet_sdk.Types.Authority.{Account, validate_account}
use punnet_sdk.Store.Objects
use punnet_sdk.Store.Objects.{Objects}

abbrev pub AccountStore : Type 0
AccountStore = Objects Account

-- An error, or none, with the store that is left.
abbrev pub Step : Type 0
Step = Outcome (Unit {0}) × AccountStore

unfoldable pub check_name : Bytes → Outcome (Unit {0})
check_name name = fail_if (not (AccountName.is_valid name)) invalid_account

-- A write behind a check.
abbrev pub checked : AccountStore → Outcome (Unit {0}) → Step → Step
checked s (ok _) r = r
checked s (err e) r = (err e, s)

unfoldable pub get : AccountStore → Bytes → Outcome Account
unfolding check_name
get s name = do check_name name; Objects.get s name

unfoldable pub set : AccountStore → Account → Step
set s a = checked s (validate_account a) (Objects.set s a.name a)

unfoldable pub delete : AccountStore → Bytes → Step
unfolding check_name
delete s name = checked s (check_name name) (Objects.delete s name)

unfoldable pub has : AccountStore → Bytes → Outcome Bool
unfolding check_name
has s name = do check_name name; Objects.has s name

-- The checks of `GetBatch` and of `SetBatch`.
unfoldable pub check_names : List Bytes → Outcome (Unit {0})
unfolding check_name
check_names [] = ok tt
check_names (name ∷ names) = do check_name name; check_names names

unfoldable pub check_accounts : List Account → Outcome (Unit {0})
check_accounts [] = ok tt
check_accounts (a ∷ accounts) = do validate_account a; check_accounts accounts

-- The accounts that are found.
abbrev pub add_found : Bytes → Outcome Account → Dict Account → Dict Account
add_found name (ok a) found = insert name a found
add_found name (err e) found = found

unfoldable pub get_all : AccountStore → List Bytes → Dict Account → Dict Account
get_all s [] found = found
get_all s (name ∷ names) found = get_all s names (add_found name (Objects.get s name) found)

unfoldable pub get_batch : AccountStore → List Bytes → Outcome (Dict Account)
unfolding check_names get_all
get_batch s names = do check_names names; fail_if s.closed store_closed; ok (get_all s names [])

unfoldable pub set_all : AccountStore → List Account → AccountStore
set_all s [] = s
set_all s (a ∷ accounts) = set_all (Objects.set s a.name a).1 accounts

unfoldable pub set_batch : AccountStore → List Account → Step
unfolding check_accounts set_all
set_batch s accounts =
    checked s (check_accounts accounts)
      (if s.closed then (err store_closed, s) else (ok tt, set_all s accounts))

-- The account that the store holds under the name is changed in place.
abbrev pub mutate : AccountStore → Bytes → Account → AccountStore
mutate s name a = record s { entries = insert name a s.entries }
