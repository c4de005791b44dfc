-- ===== src/Module/Base.antt =====
-- module/module.go: a module, and `ValidateModule`. A nil handler is `none`; the types of the handlers
-- are parameters.
use punnet_sdk.Base.{
  Bool, true, false, not, List, [], ◌∷◌, Option, Outcome, ok, fail_if, ◌>>◌, module_name_empty,
  invalid_dependency, empty_message_type, nil_dereference,
}
use punnet_sdk.Base.Bytes.{Bytes, bytes_eq}
use punnet_sdk.Base.Dict.{Dict, lookup, insert, is_some, get_or}

-- The types of the message handlers, the query handlers and the four hooks.
pub record HandlerTypes : Type 1 where
  pub Msg : Type 0
  pub Query : Type 0
  pub Begin : Type 0
  pub End : Type 0
  pub Init : Type 0
  pub Export : Type 0

-- `baseModule`
pub record Module (T : HandlerTypes) : Type 0 where
  pub name : Bytes
  pub dependencies : List Bytes
  pub msg_handlers : Dict (Option T.Msg)
  pub query_handlers : Dict (Option T.Query)
  pub begin_block : Option T.Begin
  pub end_block : Option T.End
  pub init_genesis : Option T.Init
  pub export_genesis : Option T.Export

-- The loop over the dependencies.
unfoldable pub check_dependencies : Bytes → Dict Bool → List Bytes → Outcome (Unit {0})
check_dependencies name seen [] = ok tt
check_dependencies name seen (dep ∷ deps) = do
  fail_if (bytes_eq dep []) invalid_dependency
  fail_if (bytes_eq dep name) invalid_dependency
  fail_if (get_or false (lookup dep seen)) invalid_dependency
  check_dependencies name (insert dep true seen) deps

-- A loop over the handlers.
unfoldable pub check_handlers {ℓ} : {H : Type ℓ} → Dict (Option H) → Outcome (Unit {0})
check_handlers [] = ok tt
check_handlers ((key, handler) ∷ handlers) = do
  fail_if (bytes_eq key []) empty_message_type
  fail_if (not (is_some handler)) nil_dereference
  check_handlers handlers

unfoldable pub validate_module : {T : HandlerTypes} → Module T → Outcome (Unit {0})
unfolding check_dependencies check_handlers
validate_module m = do
  fail_if (bytes_eq m.name []) module_name_empty
  check_dependencies m.name [] m.dependencies
  check_handlers m.msg_handlers
  check_handlers m.query_handlers
