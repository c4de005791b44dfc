-- ===== src/Module/Registry.antt =====
-- module/registry.go: the registration of modules. Go ranges over the map of the modules in no fixed
-- order: here the order is the list's, and the sorts of the code make the result the same.
use punnet_sdk.Base.{
  ℕ, zero, suc, ◌+◌, ◌-◌, Bool, not, List, [], ◌∷◌, ◌++◌, length, ◌==◌, if◌then◌else◌, Option, none,
  some, Outcome, ok, err, fail_if, ◌>>◌, duplicate_module, missing_dependency, module_not_found,
  no_modules, not_built, cyclic_dependency,
}
use punnet_sdk.Base.Bytes.{Bytes}
use punnet_sdk.Base.Dict.{Dict, lookup, insert, is_some, get_or}
use punnet_sdk.Store.Memory.{sort_strings}
use punnet_sdk.Module.Base.{HandlerTypes, Module, validate_module}

pub record Registry (T : HandlerTypes) : Type 0 where
  pub modules : Dict (Module T)
  pub order : List Bytes

-- The check that the dependencies are registered.
unfoldable pub check_registered {ℓ} : {A : Type ℓ} → Dict A → List Bytes → Outcome (Unit {0})
check_registered modules [] = ok tt
check_registered modules (dep ∷ deps) = do
  fail_if (not (is_some (lookup dep modules))) missing_dependency
  check_registered modules deps

-- `topologicalSort`: the maps `inDegree` and `adjList`.
pub record Degrees : Type 0 where
  pub in_degree : Dict ℕ
  pub dependents : Dict (List Bytes)

-- The loop over the dependencies of the module `name`.
unfoldable pub add_edges : Bytes → List Bytes → Degrees → Degrees
add_edges name [] g = g
add_edges name (dep ∷ deps) g = add_edges name deps (record {
  in_degree = insert name (get_or 0 (lookup name g.in_degree) + 1) g.in_degree;
  dependents = insert dep (get_or [] (lookup dep g.dependents) ++ name ∷ []) g.dependents;
})

-- The names of in-degree 0.
unfoldable pub ready_names : Dict ℕ → List Bytes
ready_names [] = []
ready_names ((name, degree) ∷ m) =
    let rest = ready_names m in if degree == 0 then name ∷ rest else rest

-- The loop over the dependents of a module that is taken: the in-degrees, and the queue kept sorted. An
-- in-degree below 0, which the code's integers can hold, is 0 here: neither comes to the queue.
unfoldable pub release : List Bytes → Dict ℕ → List Bytes → Dict ℕ × List Bytes
release [] degrees queue = (degrees, queue)
release (name ∷ names) degrees queue =
    let degree = get_or 0 (lookup name degrees) in
    release names (insert name (degree - 1) degrees)
      (if degree == 1 then sort_strings (queue ++ name ∷ []) else queue)

-- The loop that takes the first module of the queue. Every round uses one unit of fuel.
unfoldable pub take_ready : ℕ → Dict (List Bytes) → Dict ℕ → List Bytes → List Bytes → List Bytes
unfolding release
take_ready zero dependents degrees queue result = result
take_ready (suc fuel) dependents degrees [] result = result
take_ready (suc fuel) dependents degrees (name ∷ queue) result =
    let released = release (sort_strings (get_or [] (lookup name dependents))) degrees queue in
    take_ready fuel dependents released.0 released.1 (result ++ name ∷ [])

module _ {T : HandlerTypes} where
  abbrev pub new_registry : Registry T
  new_registry = record { modules = []; order = [] }

  -- The checks of `Register`.
  unfoldable pub check_module : Module T → Registry T → Outcome (Unit {0})
  unfolding check_registered
  check_module m r = do
    validate_module m
    fail_if (is_some (lookup m.name r.modules)) duplicate_module
    check_registered r.modules m.dependencies

  abbrev pub registered :
      Module T → Registry T → Outcome (Unit {0}) → Outcome (Unit {0}) × Registry T
  registered m r (ok _) = (ok tt, record r { modules = insert m.name m r.modules })
  registered m r (err e) = (err e, r)

  unfoldable pub register : Module T → Registry T → Outcome (Unit {0}) × Registry T
  unfolding check_module
  register m r = registered m r (check_module m r)

  unfoldable pub no_edges : Dict (Module T) → Degrees
  no_edges [] = record { in_degree = []; dependents = [] }
  no_edges ((name, m) ∷ ms) =
      let rest = no_edges ms in
      record { in_degree = (name, 0) ∷ rest.in_degree; dependents = (name, []) ∷ rest.dependents }

  unfoldable pub all_edges : Dict (Module T) → Degrees → Degrees
  unfolding add_edges
  all_edges [] g = g
  all_edges ((name, m) ∷ ms) g = all_edges ms (add_edges name m.dependencies g)

  unfoldable pub topological_sort : Dict (Module T) → Outcome (List Bytes)
  unfolding no_edges all_edges ready_names take_ready
  topological_sort modules =
      let g = all_edges modules (no_edges modules) in
      let result =
        take_ready (length modules + 1) g.dependents g.in_degree
          (sort_strings (ready_names g.in_degree)) [] in
      if length result == length modules then ok result else err cyclic_dependency

  abbrev pub with_order : Registry T → Outcome (List Bytes) → Outcome (Unit {0}) × Registry T
  with_order r (ok order) = (ok tt, record r { order = order })
  with_order r (err e) = (err e, r)

  unfoldable pub build : Registry T → Outcome (Unit {0}) × Registry T
  unfolding topological_sort
  build r =
      if length r.modules == 0
      then (err no_modules, r)
      else with_order r (topological_sort r.modules)

  abbrev pub or_missing : Option (Module T) → Outcome (Module T)
  or_missing none = err module_not_found
  or_missing (some m) = ok m

  unfoldable pub get : Registry T → Bytes → Outcome (Module T)
  get r name = or_missing (lookup name r.modules)

  unfoldable pub has : Registry T → Bytes → Bool
  has r name = is_some (lookup name r.modules)

  unfoldable pub module_names : Registry T → Outcome (List Bytes)
  module_names r =
      if length r.order == 0
      then if length r.modules == 0 then ok [] else err not_built
      else ok r.order
