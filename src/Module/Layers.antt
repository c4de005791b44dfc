-- ===== src/Module/Layers.antt =====
-- The order of registration in module/registry.go: dependencies before dependents.
use punnet_sdk.Base.{
  ◌≡◌, refl, ◌∙◌, ap, subst, Bool, true, false, List, [], ◌∷◌, ◌++◌, Outcome, ok, err, Error,
  fail_if, ◌>>◌, arith, All, Bool-cases, inl, inr, Outcome-cases, duplicate_module,
}
use punnet_sdk.Base.Bytes.{Bytes}
use punnet_sdk.Base.Dict.{Dict, lookup, insert, is_some}
use punnet_sdk.Store.Memory.Range.{listed}
use punnet_sdk.Module.Base.{HandlerTypes, Module, validate_module}
use punnet_sdk.Module.Registry.{Registry, register, check_module, check_registered}

module _ {A : Type 0} where
  abbrev pub keys_of : Dict A → List Bytes
  keys_of [] = []
  keys_of ((k, v) ∷ m) = k ∷ keys_of m

  listed-keys_of : (k : Bytes) (m : Dict A) → listed k (keys_of m) ≡ is_some (lookup k m)
  unfolding listed lookup
  listed-keys_of k [] = refl
  listed-keys_of k ((j, v) ∷ m) = ground (arith, listed-keys_of k m)

  insert_new :
      (k : Bytes) (v : A) (m : Dict A)
      → is_some (lookup k m) ≡ false
      → insert k v m ≡ m ++ (k, v) ∷ []
  unfolding insert lookup
  insert_new k v [] h = refl
  insert_new k v ((j, w) ∷ m) h = ground (arith, h, insert_new k v m)

  check_registered-All :
      (modules : Dict A) (deps : List Bytes)
      → check_registered modules deps ≡ ok tt
      → All (λ dep. listed dep (keys_of modules) ≡ true) deps
  unfolding check_registered
  check_registered-All modules [] h = tt
  check_registered-All modules (dep ∷ deps) h = elim (Bool-cases (is_some (lookup dep modules))) [
    | inl t ↦
        (listed-keys_of dep modules ∙ t, check_registered-All modules deps (ground (arith, h, t)))
    | inr t ↦ ground (arith, h, t)
  ]

three_ok :
    (p r : Outcome (Unit {0})) (b : Bool) (e : Error)
    → (p >> (fail_if b e >> r)) ≡ ok tt
    → (b ≡ false) × (r ≡ ok tt)
three_ok (err x) r b e h = cc
three_ok (ok _) r true e h = cc
three_ok (ok _) r false e h = (refl, h)

module _ {T : HandlerTypes} where
  -- Every module depends on modules before it only: `earlier` are the names before the list.
  abbrev pub IsLayered : List Bytes → Dict (Module T) → Type 0
  IsLayered earlier [] = Unit
  IsLayered earlier ((name, m) ∷ ms) =
      All (λ dep. listed dep earlier ≡ true) m.dependencies × IsLayered (earlier ++ name ∷ []) ms

  add_layer :
      (earlier : List Bytes) (ms : Dict (Module T)) (name : Bytes) (m : Module T)
      → IsLayered earlier ms
      → All (λ dep. listed dep (earlier ++ keys_of ms) ≡ true) m.dependencies
      → IsLayered earlier (ms ++ (name, m) ∷ [])
  add_layer earlier [] name m h d =
      (subst (λ ks. All (λ dep. listed dep ks ≡ true) m.dependencies) (append_nil earlier) d, tt)
    where
      append_nil : (ks : List Bytes) → ks ++ [] ≡ ks
      append_nil [] = refl
      append_nil (k ∷ ks) = ap (λ js. k ∷ js) (append_nil ks)
  add_layer earlier ((n, x) ∷ ms) name m h d = (
    h.0,
    add_layer (earlier ++ n ∷ []) ms name m h.1 (
        subst (λ ks. All (λ dep. listed dep ks ≡ true) m.dependencies)
          (regroup earlier n (keys_of ms)) d),
  )
    where
      regroup :
          (ks : List Bytes) (n : Bytes) (js : List Bytes) → ks ++ n ∷ js ≡ (ks ++ n ∷ []) ++ js
      regroup [] n js = refl
      regroup (k ∷ ks) n js = ap (λ l. k ∷ l) (regroup ks n js)

  check_parts :
      (m : Module T) (r : Registry T)
      → check_module m r ≡ ok tt
      → (is_some (lookup m.name r.modules) ≡ false)
        × (check_registered r.modules m.dependencies ≡ ok tt)
  unfolding check_module
  check_parts m r h =
      three_ok (validate_module m) (check_registered r.modules m.dependencies)
        (is_some (lookup m.name r.modules)) duplicate_module h

  -- Registering a module keeps the order: every registered module depends on modules registered
  -- before it only.
  pub register-IsLayered :
      (m : Module T) (r : Registry T)
      → IsLayered [] r.modules
      → IsLayered [] (register m r).1.modules
  unfolding register
  register-IsLayered m r h = elim (Outcome-cases (check_module m r)) [
    | inl (u, e) ↦
        let (new, deps) = check_parts m r e in
        rw (e, insert_new m.name m r.modules new)
          (add_layer [] r.modules m.name m h (check_registered-All r.modules m.dependencies deps))
    | inr (x, e) ↦ rw (e) h
  ]
