-- ===== src/Module/Checks.antt =====
-- The checks of `ValidateModule` of module/module.go, under the changes that a builder makes.
use punnet_sdk.Base.{
  ◌≡◌, refl, sym, subst, Bool, true, false, not, List, [], ◌∷◌, ◌++◌, if◌then◌else◌, Option, none,
  some, Outcome, ok, err, Error, fail_if, ◌>>◌, arith, inl, inr, Option-cases, module_name_empty,
}
use punnet_sdk.Base.Bytes.{Bytes, bytes_eq, eq_iff}
use punnet_sdk.Base.Dict.{Dict, lookup, insert, is_some, get_or, lookup-insert}
use punnet_sdk.Module.Base.{
  HandlerTypes, Module, validate_module, check_dependencies, check_handlers,
}
use punnet_sdk.Module.Builder.{
  ModuleBuilder, new_module_builder, has_dependency, unless_failed, fail,
}

pub not-false : (b : Bool) → not b ≡ false → b ≡ true
not-false true h = refl
not-false false h = cc

not_seen :
    (first dep : Bytes) (seen : Dict Bool)
    → bytes_eq first dep ≡ false
    → get_or false (lookup dep seen) ≡ false
    → get_or false (lookup dep (insert first true seen)) ≡ false
not_seen first dep seen a b = rw (lookup-insert first dep true seen, a) b

pub check_dependencies-append :
    (name dep : Bytes) (seen : Dict Bool) (deps : List Bytes)
    → check_dependencies name seen deps ≡ ok tt
    → bytes_eq dep [] ≡ false
    → bytes_eq dep name ≡ false
    → has_dependency dep deps ≡ false
    → get_or false (lookup dep seen) ≡ false
    → check_dependencies name seen (deps ++ dep ∷ []) ≡ ok tt
unfolding check_dependencies has_dependency
check_dependencies-append name dep seen [] h a b c d = rw (a, b, d) refl
check_dependencies-append name dep seen (first ∷ deps) h a b c d = ground (
  arith,
  h,
  a,
  b,
  c,
  d,
  check_dependencies-append name dep (insert first true seen) deps,
  not_seen first dep seen,
)

pub check_handlers-insert :
    {H : Type 0} (key : Bytes) (handler : Option H) (handlers : Dict (Option H))
    → check_handlers handlers ≡ ok tt
    → bytes_eq key [] ≡ false
    → is_some handler ≡ true
    → check_handlers (insert key handler handlers) ≡ ok tt
unfolding check_handlers insert
check_handlers-insert key handler [] h a b = rw (a, b) refl
check_handlers-insert key handler ((k, x) ∷ handlers) h a b =
    ground (arith, h, a, b, eq_iff k key, check_handlers-insert key handler handlers)

all_ok :
    (b : Bool) (e : Error) (p q r : Outcome (Unit {0}))
    → (fail_if b e >> (p >> (q >> r))) ≡ ok tt
    → (b ≡ false) × (p ≡ ok tt) × (q ≡ ok tt) × (r ≡ ok tt)
all_ok true e p q r h = cc
all_ok false e (err x) q r h = cc
all_ok false e (ok _) (err x) r h = cc
all_ok false e (ok _) (ok _) r h = (refl, refl, refl, h)

module _ {T : HandlerTypes} where
  -- Without an error, the module of the builder is a valid one.
  abbrev pub IsSound : ModuleBuilder T → Type 0
  IsSound b = b.error ≡ none → validate_module b.module_built ≡ ok tt

  -- The four checks of a module.
  pub record Checked (m : Module T) : Type 0 where
    pub named : bytes_eq m.name [] ≡ false
    pub dependencies_ok : check_dependencies m.name [] m.dependencies ≡ ok tt
    pub msg_handlers_ok : check_handlers m.msg_handlers ≡ ok tt
    pub query_handlers_ok : check_handlers m.query_handlers ≡ ok tt

  pub whole : (m : Module T) → Checked m → validate_module m ≡ ok tt
  unfolding validate_module
  whole m c = rw (c.named, c.dependencies_ok, c.msg_handlers_ok, c.query_handlers_ok) refl

  pub parts : (m : Module T) → validate_module m ≡ ok tt → Checked m
  unfolding validate_module
  parts m h =
      let (a, b, c, d) =
        all_ok (bytes_eq m.name []) module_name_empty (check_dependencies m.name [] m.dependencies)
          (check_handlers m.msg_handlers) (check_handlers m.query_handlers) h in
      record { named = a; dependencies_ok = b; msg_handlers_ok = c; query_handlers_ok = d }

  fail-IsSound : (b : ModuleBuilder T) (e : Error) → IsSound (fail b e)
  fail-IsSound b e h = cc

  -- A call on a builder with an error is none.
  pub unless-IsSound :
      (b next : ModuleBuilder T)
      → IsSound b
      → (b.error ≡ none → IsSound next)
      → IsSound (unless_failed b next)
  unless-IsSound b next h k = elim (Option-cases b.error) [
    | inl e ↦ subst (λ o. IsSound (if is_some o then b else next)) (sym e) (k e)
    | inr (x, e) ↦ subst (λ o. IsSound (if is_some o then b else next)) (sym e) h
  ]

  -- A test that makes the call fail.
  pub test-IsSound :
      (t : Bool) (b next : ModuleBuilder T) (e : Error)
      → (t ≡ false → IsSound next)
      → IsSound (if t then fail b e else next)
  test-IsSound true b next e h = fail-IsSound b e
  test-IsSound false b next e h = h refl

name_given : (b : Bool) → (if b then some module_name_empty else none) ≡ none → b ≡ false
name_given true h = cc
name_given false h = refl

pub new-IsSound :
    (T : HandlerTypes) (name : Bytes)
    → (new_module_builder {T = T} name).error ≡ none
    → validate_module (new_module_builder {T = T} name).module_built ≡ ok tt
unfolding new_module_builder validate_module check_dependencies check_handlers
new-IsSound T name h = rw (name_given (bytes_eq name []) h) refl
