-- ===== src/Store/Objects.antt =====
-- store/store.go: what `ObjectStore` promises for one type of objects `V`, over byte keys: `Get` is
-- `ErrNotFound` on a key that is not stored, and every operation fails on a closed store.
use punnet_sdk.Base.{
  Bool, true, Option, none, some, Outcome, ok, err, key_not_found, store_closed, if◌then◌else◌,
}
use punnet_sdk.Base.Bytes.{Bytes}
use punnet_sdk.Base.Dict.{Dict, lookup, insert, remove, is_some}

pub record Objects (V : Type 0) : Type 0 where
  pub entries : Dict V
  pub closed : Bool

module _ {V : Type 0} where
  abbrev pub found : Option V → Outcome V
  found none = err key_not_found
  found (some v) = ok v

  unfoldable pub get : Objects V → Bytes → Outcome V
  get s k = if s.closed then err store_closed else found (lookup k s.entries)

  unfoldable pub set : Objects V → Bytes → V → Outcome (Unit {0}) × Objects V
  set s k v =
      if s.closed
      then (err store_closed, s)
      else (ok tt, record { entries = insert k v s.entries; closed = s.closed })

  unfoldable pub delete : Objects V → Bytes → Outcome (Unit {0}) × Objects V
  delete s k =
      if s.closed
      then (err store_closed, s)
      else (ok tt, record { entries = remove k s.entries; closed = s.closed })

  unfoldable pub has : Objects V → Bytes → Outcome Bool
  has s k = if s.closed then err store_closed else ok (is_some (lookup k s.entries))

  unfoldable pub close : Objects V → Outcome (Unit {0}) × Objects V
  close s = (ok tt, record { entries = s.entries; closed = true })
