-- ===== src/Capability/Manager.antt =====
-- capability/capability.go: the capability manager, which gives every registered module the part of the
-- backing store under its prefix. The stores that are given out share the backing store: here each has
-- the one of the manager when it is given out.
use punnet_sdk.Base.{
  ℕ, Bool, true, false, not, [], ◌∷◌, ◌++◌, ◌==◌, if◌then◌else◌, some, Outcome, ok, err, fail_if,
  ◌>>◌, ◌≡◌, refl, sym, ap, ◌∙◌, arith, module_name_empty, duplicate_module, module_not_found,
  length,
}
use punnet_sdk.Base.Bytes.{Bytes, codes, bytes_eq, eq_refl}
use punnet_sdk.Base.Dict.{Dict, lookup, insert, get_or, lookup-insert}
use punnet_sdk.Store.Memory
use punnet_sdk.Store.Memory.{Memory, validate_key, found}
use punnet_sdk.Store.Prefix
use punnet_sdk.Store.Prefix.{PrefixStore, new_prefix_store, prefix_key, has_prefix, checks}
use punnet_sdk.Store.Prefix.Isolated.{prefix_set_lem, set_open, not_empty}

pub record CapabilityManager : Type 0 where
  pub modules : Dict Bool
  pub backing : Memory

unfoldable pub new_capability_manager : Memory → CapabilityManager
new_capability_manager backing = record { modules = []; backing = backing }

unfoldable pub is_module_registered : CapabilityManager → Bytes → Bool
is_module_registered cm name = get_or false (lookup name cm.modules)

unfoldable pub register_module : CapabilityManager → Bytes → Outcome (Unit {0}) × CapabilityManager
register_module cm name =
    if length name == 0
    then (err module_name_empty, cm)
    else if get_or false (lookup name cm.modules)
    then (err duplicate_module, cm)
    else (ok tt, record cm { modules = insert name true cm.modules })

-- `fmt.Sprintf("module/%s/", moduleName)`
abbrev pub module_prefix : Bytes → Bytes
module_prefix name = codes "module/" ++ (name ++ codes "/")

unfoldable pub create_prefixed_store : CapabilityManager → Bytes → Outcome PrefixStore
unfolding is_module_registered
create_prefixed_store cm name = do
  fail_if (not (is_module_registered cm name)) module_not_found
  new_prefix_store cm.backing (module_prefix name)

-- A name with a slash.
unfoldable pub has_slash : Bytes → Bool
has_slash [] = false
has_slash (b ∷ bs) = if b == 47 then true else has_slash bs

-- The prefix of a module without a slash is the beginning of no key of another such module.
apart :
    (a b j : Bytes)
    → has_slash a ≡ false
    → has_slash b ≡ false
    → bytes_eq a b ≡ false
    → has_prefix (a ++ codes "/") ((b ++ codes "/") ++ j) ≡ false
unfolding has_slash bytes_eq has_prefix
apart [] [] j p q n = ground (arith, n)
apart [] (y ∷ b) j p q n = ground (arith, q)
apart (x ∷ a) [] j p q n = ground (arith, p)
apart (x ∷ a) (y ∷ b) j p q n = ground (arith, p, q, n, apart a b j)

apart_prefixes :
    (a b j : Bytes)
    → has_slash a ≡ false
    → has_slash b ≡ false
    → bytes_eq a b ≡ false
    → has_prefix (module_prefix a) (module_prefix b ++ j) ≡ false
unfolding has_prefix
apart_prefixes a b j p q n = apart a b j p q n

-- The store that a module is given.
abbrev pub given : CapabilityManager → Bytes → PrefixStore
given cm name = record { parent = cm.backing; prefix = module_prefix name; closed = false }

new_open :
    (m : Memory) (p : Bytes)
    → (length p == 0) ≡ false
    → new_prefix_store m p ≡ ok (record { parent = m; prefix = p; closed = false })
unfolding new_prefix_store
new_open m p h = rw (h) refl

created :
    (cm : CapabilityManager) (name : Bytes)
    → is_module_registered cm name ≡ true
    → create_prefixed_store cm name ≡ ok (given cm name)
unfolding create_prefixed_store
created cm name r = rw (r) (new_open cm.backing (module_prefix name) (ground arith))

get_same :
    (ps : PrefixStore) (m : Memory) (j : Bytes)
    → lookup (prefix_key ps j) m ≡ lookup (prefix_key ps j) ps.parent
    → Prefix.get (record ps { parent = m }) j ≡ Prefix.get ps j
unfolding Prefix.get Memory.get checks
get_same ps m j e = rw (e) refl

get_present :
    (ps : PrefixStore) (j v : Bytes)
    → ps.closed ≡ false
    → (length j == 0) ≡ false
    → (length (prefix_key ps j) == 0) ≡ false
    → lookup (prefix_key ps j) ps.parent ≡ some v
    → Prefix.get ps j ≡ ok v
unfolding Prefix.get Memory.get checks validate_key
get_present ps j v o h h' e = rw (o, h, h', e) refl

-- The key of the nested module, in both stores.
same_tail : (b k : Bytes) → (b ++ codes "/") ++ k ≡ b ++ 47 ∷ k
same_tail [] k = refl
same_tail (x ∷ b) k = ap (λ l. x ∷ l) (same_tail b k)

same_key : (a b k : Bytes) → ((a ++ 47 ∷ b) ++ codes "/") ++ k ≡ (a ++ codes "/") ++ (b ++ 47 ∷ k)
same_key [] b k = ap (λ l. 47 ∷ l) (same_tail b k)
same_key (x ∷ a) b k = ap (λ l. x ∷ l) (same_key a b k)

module _ (cm : CapabilityManager) (a b : Bytes) where
  -- Two registered modules with different names in which no slash stands are given stores that do not
  -- meet: what one writes under a key that is not empty is accepted, and every read of the other finds
  -- what it found before.
  pub modules_isolated :
      (c : ℕ) (k v : Bytes)
      → is_module_registered cm a ≡ true
      → is_module_registered cm b ≡ true
      → has_slash a ≡ false
      → has_slash b ≡ false
      → bytes_eq a b ≡ false
      → (create_prefixed_store cm a ≡ ok (given cm a))
        × (create_prefixed_store cm b ≡ ok (given cm b))
        × ((Prefix.set (given cm a) (c ∷ k) v).0 ≡ ok tt)
        × ((j : Bytes)
            → Prefix.get
                (record (given cm b) { parent = (Prefix.set (given cm a) (c ∷ k) v).1.parent })
                j
              ≡ Prefix.get (given cm b) j)
  unfolding has_prefix
  modules_isolated c k v ra rb p q n = (
    created cm a ra,
    created cm b rb,
    (prefix_set_lem (given cm a) refl c k v [] [] refl).0,
    λ j.
        get_same (given cm b) _ j
          (prefix_set_lem (given cm a) refl c k v [] (module_prefix b ++ j)
            (apart_prefixes a b j p q n)).2,
  )

  -- A module whose name goes on behind the name of another one and a slash is given a part of the
  -- other's store: what it writes under a key that is not empty, the other finds under that key behind
  -- the rest of the name.
  pub modules_nested :
      (c : ℕ) (k v : Bytes)
      → is_module_registered cm a ≡ true
      → is_module_registered cm (a ++ 47 ∷ b) ≡ true
      → (create_prefixed_store cm a ≡ ok (given cm a))
        × (create_prefixed_store cm (a ++ 47 ∷ b) ≡ ok (given cm (a ++ 47 ∷ b)))
        × (Prefix.get
              (record (given cm a) {
                parent = (Prefix.set (given cm (a ++ 47 ∷ b)) (c ∷ k) v).1.parent;
              })
              (b ++ 47 ∷ c ∷ k)
            ≡ ok v)
  modules_nested c k v ra rn = (
    created cm a ra,
    created cm (a ++ 47 ∷ b) rn,
    rw (set_open (given cm (a ++ 47 ∷ b)) refl c k v) (
        get_present _ (b ++ 47 ∷ c ∷ k) v refl (not_empty b 47 (c ∷ k)) (ground arith) (
          rw (sym (same_key a b (c ∷ k))) (
            lookup-insert (module_prefix (a ++ 47 ∷ b) ++ (c ∷ k))
              (module_prefix (a ++ 47 ∷ b) ++ (c ∷ k)) v cm.backing
            ∙ rw (eq_refl (module_prefix (a ++ 47 ∷ b) ++ (c ∷ k))) refl))),
  )
