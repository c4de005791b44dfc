-- ===== src/Store/Prefix/Isolated.antt =====
-- The writes of a store of store/prefix.go: what they change in the parent, and what they leave.
use punnet_sdk.Base.{
  ℕ, ◌≡◌, refl, sym, ◌∙◌, ap, Bool, true, false, ◌==◌, [], ◌∷◌, ◌++◌, Option, none, some,
  if◌then◌else◌, arith, ok, err, length, key_invalid, key_not_found,
}
use punnet_sdk.Base.Bytes.{Bytes, bytes_eq}
use punnet_sdk.Base.Dict.{lookup, insert, remove, lookup-insert, lookup-remove}
use punnet_sdk.Store.Memory.{Memory, validate_key, found}
use punnet_sdk.Store.Memory
use punnet_sdk.Store.Prefix
use punnet_sdk.Store.Prefix.{PrefixStore, has_prefix, prefix_key, stripped, checks}

eq_append : (p i j : Bytes) → bytes_eq (p ++ i) (p ++ j) ≡ bytes_eq i j
unfolding bytes_eq
eq_append [] i j = refl
eq_append (b ∷ p) i j = ground (arith, eq_append p i j)

-- A key without the prefix is not one with it.
eq_outside : (p k i : Bytes) → has_prefix p i ≡ false → bytes_eq (p ++ k) i ≡ false
unfolding has_prefix bytes_eq
eq_outside [] k i h = cc
eq_outside (b ∷ p) k [] h = refl
eq_outside (b ∷ p) k (x ∷ i) h = ground (arith, eq_outside p k i)

pub not_empty : (p : Bytes) (b : ℕ) (k : Bytes) → (length (p ++ b ∷ k) == 0) ≡ false
not_empty [] b k = ground arith
not_empty (c ∷ p) b k = ground arith

module _ (ps : PrefixStore) (h : ps.closed ≡ false) where
  pub set_open :
      (b : ℕ) (k v : Bytes)
      → Prefix.set ps (b ∷ k) v
        ≡ (ok tt, record ps { parent = insert (prefix_key ps (b ∷ k)) v ps.parent })
  unfolding Prefix.set checks Memory.set validate_key
  set_open b k v = rw (h, not_empty ps.prefix b k, not_empty [] b k) refl

  delete_open :
      (b : ℕ) (k : Bytes)
      → Prefix.delete ps (b ∷ k)
        ≡ (ok tt, record ps { parent = remove (prefix_key ps (b ∷ k)) ps.parent })
  unfolding Prefix.delete checks Memory.delete validate_key
  delete_open b k = rw (h, not_empty ps.prefix b k, not_empty [] b k) refl

  get_open :
      (b : ℕ) (k : Bytes) → Prefix.get ps (b ∷ k) ≡ found (lookup (prefix_key ps (b ∷ k)) ps.parent)
  unfolding Prefix.get checks Memory.get validate_key
  get_open b k = rw (h, not_empty ps.prefix b k, not_empty [] b k) refl

  get_empty : Prefix.get ps [] ≡ err key_invalid
  unfolding Prefix.get checks validate_key
  get_empty = rw (h) (ground arith)

found_if :
    (b : Bool) (o p : Option Bytes) → found (if b then o else p) ≡ (if b then found o else found p)
found_if true o p = refl
found_if false o p = refl

-- What every key of the store finds after a change of the parent under the key `b ∷ k`.
seen :
    (ps : PrefixStore) (m : Memory) (o : Option Bytes) (b : ℕ) (k j : Bytes)
    → ps.closed ≡ false
    → ((i : Bytes)
        → lookup i m ≡ (if bytes_eq (prefix_key ps (b ∷ k)) i then o else lookup i ps.parent))
    → Prefix.get (record ps { parent = m }) j
      ≡ (if bytes_eq (b ∷ k) j then found o else Prefix.get ps j)
unfolding bytes_eq
seen ps m o b k [] h e = get_empty (record ps { parent = m }) h ∙ sym (get_empty ps h)
seen ps m o b k (c ∷ j) h e = rw (get_open ps h c j) (
    get_open (record ps { parent = m }) h c j
    ∙ ap found (
        e (prefix_key ps (c ∷ j))
        ∙ ap (λ t. if t then o else lookup (prefix_key ps (c ∷ j)) ps.parent)
            (eq_append ps.prefix (b ∷ k) (c ∷ j)))
    ∙ found_if (bytes_eq (b ∷ k) (c ∷ j)) o (lookup (prefix_key ps (c ∷ j)) ps.parent))

module _ (ps : PrefixStore) (h : ps.closed ≡ false) where
  -- An open store lets a write of a key that is not empty through: the key then finds the value, every
  -- other key of the store finds what it found, and the parent finds what it found under every key
  -- that has not the prefix.
  pub prefix_set_lem :
      (b : ℕ) (k v j i : Bytes)
      → has_prefix ps.prefix i ≡ false
      → ((Prefix.set ps (b ∷ k) v).0 ≡ ok tt)
        × (Prefix.get (Prefix.set ps (b ∷ k) v).1 j
            ≡ (if bytes_eq (b ∷ k) j then ok v else Prefix.get ps j))
        × (lookup i (Prefix.set ps (b ∷ k) v).1.parent ≡ lookup i ps.parent)
  prefix_set_lem b k v j i out = rw (set_open ps h b k v) (
    refl,
    seen ps (insert (prefix_key ps (b ∷ k)) v ps.parent) (some v) b k j h
        (λ i. lookup-insert (prefix_key ps (b ∷ k)) i v ps.parent),
    rw (lookup-insert (prefix_key ps (b ∷ k)) i v ps.parent, eq_outside ps.prefix (b ∷ k) i out)
        refl,
  )

  -- The same of a deletion: the key then finds nothing.
  pub prefix_delete_lem :
      (b : ℕ) (k j i : Bytes)
      → has_prefix ps.prefix i ≡ false
      → ((Prefix.delete ps (b ∷ k)).0 ≡ ok tt)
        × (Prefix.get (Prefix.delete ps (b ∷ k)).1 j
            ≡ (if bytes_eq (b ∷ k) j then err key_not_found else Prefix.get ps j))
        × (lookup i (Prefix.delete ps (b ∷ k)).1.parent ≡ lookup i ps.parent)
  prefix_delete_lem b k j i out = rw (delete_open ps h b k) (
    refl,
    seen ps (remove (prefix_key ps (b ∷ k)) ps.parent) none b k j h
        (λ i. lookup-remove (prefix_key ps (b ∷ k)) i ps.parent),
    rw (lookup-remove (prefix_key ps (b ∷ k)) i ps.parent, eq_outside ps.prefix (b ∷ k) i out) refl,
  )
