-- ===== src/Store/Cache/Entries.antt =====
-- The entries of a cache under the steps of its operations: what a key finds, and that no key stands
-- twice.
use punnet_sdk.Base.{
  ◌+◌, ◌≤◌, ◌≡◌, refl, true, [], ◌∷◌, Option, none, some, length, if◌then◌else◌, arith,
}
use punnet_sdk.Base.Bytes.{Bytes, bytes_eq, eq_iff, eq_refl}
use punnet_sdk.Base.Dict.{Dict, lookup, remove, is_some, Distinct}
use punnet_sdk.Store.Cache.{drop_last}

module _ {ℓ} {E : Type ℓ} where
  -- The key and the value of the last element.
  abbrev pub last_of : Dict E → Option (Bytes × E)
  last_of [] = none
  last_of (x ∷ []) = some x
  last_of (x ∷ y ∷ xs) = last_of (y ∷ xs)

  pub last_of-some : (x : Bytes × E) (m : Dict E) → (p : Bytes × E) × (last_of (x ∷ m) ≡ some p)
  last_of-some x [] = (x, refl)
  last_of-some x (y ∷ m) = last_of-some y m

  pub length-drop_last : (x : Bytes × E) (m : Dict E) → length (drop_last (x ∷ m)) ≡ length m
  unfolding drop_last
  length-drop_last x [] = refl
  length-drop_last x (y ∷ m) = omega (arith, length-drop_last y m)

  pub length-remove : (k : Bytes) (m : Dict E) → length (remove k m) ≤ length m
  unfolding remove
  length-remove k [] = omega arith
  length-remove k ((j, e) ∷ m) = ground (arith, length-remove k m)

  pub length-remove_found :
      (k : Bytes) (m : Dict E) → is_some (lookup k m) ≡ true → length (remove k m) + 1 ≤ length m
  unfolding remove lookup
  length-remove_found k [] h = cc
  length-remove_found k ((j, e) ∷ m) h = ground (arith, length-remove k m, length-remove_found k m)

  pub lookup-last :
      (m : Dict E) (j : Bytes) (e : E) → Distinct m → last_of m ≡ some (j, e) → lookup j m ≡ some e
  unfolding lookup
  lookup-last [] j e d h = cc
  lookup-last ((i, f) ∷ []) j e d h = ground (arith, h, eq_refl i)
  lookup-last ((i, f) ∷ (i2, f2) ∷ m) j e d h =
      let ih = lookup-last ((i2, f2) ∷ m) j e d.1 h in ground (arith, ih, d.0, eq_iff i j)

  lookup-none-drop_last :
      (k : Bytes) (m : Dict E) → lookup k m ≡ none → lookup k (drop_last m) ≡ none
  unfolding drop_last lookup
  lookup-none-drop_last k [] h = refl
  lookup-none-drop_last k ((i, f) ∷ []) h = refl
  lookup-none-drop_last k ((i, f) ∷ (i2, f2) ∷ m) h =
      ground (arith, lookup-none-drop_last k ((i2, f2) ∷ m))

  -- Without the last element, its key finds nothing and every other key finds what it found.
  pub lookup-drop_last :
      (k : Bytes) (m : Dict E) (j : Bytes) (e : E)
      → Distinct m
      → last_of m ≡ some (j, e)
      → lookup k (drop_last m) ≡ (if bytes_eq j k then none else lookup k m)
  unfolding drop_last lookup
  lookup-drop_last k [] j e d h = cc
  lookup-drop_last k ((i, f) ∷ []) j e d h = ground (arith, h)
  lookup-drop_last k ((i, f) ∷ (i2, f2) ∷ m) j e d h =
      let found = lookup-last ((i2, f2) ∷ m) j e d.1 h in
      let ih = lookup-drop_last k ((i2, f2) ∷ m) j e d.1 h in
      ground (arith, ih, found, d.0, eq_iff i k, eq_iff j k)

  pub drop_last-Distinct : (m : Dict E) → Distinct m → Distinct (drop_last m)
  unfolding drop_last
  drop_last-Distinct [] d = tt
  drop_last-Distinct (x ∷ []) d = tt
  drop_last-Distinct ((i, f) ∷ (i2, f2) ∷ m) d =
      (lookup-none-drop_last i ((i2, f2) ∷ m) d.0, drop_last-Distinct ((i2, f2) ∷ m) d.1)
