-- ===== src/Module/Builder.antt =====
-- module/builder.go: the builder of a module. A builder without a module, which has an error, has an
-- empty one here: no call reads it.
use punnet_sdk.Base.{
  Bool, true, false, not, List, [], ◌∷◌, ◌++◌, if◌then◌else◌, Option, none, some, Outcome, ok, err,
  Error, module_name_empty, invalid_dependency, empty_message_type, nil_dereference,
  duplicate_handler,
}
use punnet_sdk.Base.Bytes.{Bytes, bytes_eq}
use punnet_sdk.Base.Dict.{Dict, lookup, insert, is_some}
use punnet_sdk.Module.Base.{HandlerTypes, Module, validate_module}

pub record ModuleBuilder (T : HandlerTypes) : Type 0 where
  pub module_built : Module T
  pub error : Option Error

-- The search for a dependency.
unfoldable pub has_dependency : Bytes → List Bytes → Bool
has_dependency name [] = false
has_dependency name (dep ∷ deps) =
    let rest = has_dependency name deps in if bytes_eq dep name then true else rest

module _ {T : HandlerTypes} where
  abbrev pub empty_module : Bytes → Module T
  empty_module name = record {
    name = name;
    dependencies = [];
    msg_handlers = [];
    query_handlers = [];
    begin_block = none;
    end_block = none;
    init_genesis = none;
    export_genesis = none;
  }

  unfoldable pub new_module_builder : Bytes → ModuleBuilder T
  new_module_builder name = record {
    module_built = empty_module name;
    error = if bytes_eq name [] then some module_name_empty else none;
  }

  abbrev pub fail : ModuleBuilder T → Error → ModuleBuilder T
  fail b e = record b { error = some e }

  abbrev pub with_module : ModuleBuilder T → Module T → ModuleBuilder T
  with_module b m = record b { module_built = m }

  -- A builder with an error does nothing.
  abbrev pub unless_failed : ModuleBuilder T → ModuleBuilder T → ModuleBuilder T
  unless_failed b next = if is_some b.error then b else next

  unfoldable pub with_dependency : Bytes → ModuleBuilder T → ModuleBuilder T
  unfolding has_dependency
  with_dependency name b =
      let m = b.module_built in
      unless_failed b (
        if bytes_eq name []
        then fail b invalid_dependency
        else if bytes_eq name m.name
        then fail b invalid_dependency
        else if has_dependency name m.dependencies
        then fail b invalid_dependency
        else with_module b (record m { dependencies = m.dependencies ++ name ∷ [] }))

  unfoldable pub with_dependencies : List Bytes → ModuleBuilder T → ModuleBuilder T
  unfolding with_dependency
  with_dependencies [] b = b
  with_dependencies (name ∷ names) b = with_dependencies names (with_dependency name b)

  unfoldable pub with_msg_handler : Bytes → Option T.Msg → ModuleBuilder T → ModuleBuilder T
  with_msg_handler kind handler b =
      let m = b.module_built in
      unless_failed b (
        if bytes_eq kind []
        then fail b empty_message_type
        else if not (is_some handler)
        then fail b nil_dereference
        else if is_some (lookup kind m.msg_handlers)
        then fail b duplicate_handler
        else with_module b (record m { msg_handlers = insert kind handler m.msg_handlers }))

  unfoldable pub with_msg_handlers : Dict (Option T.Msg) → ModuleBuilder T → ModuleBuilder T
  unfolding with_msg_handler
  with_msg_handlers [] b = b
  with_msg_handlers ((kind, handler) ∷ handlers) b =
      with_msg_handlers handlers (with_msg_handler kind handler b)

  unfoldable pub with_query_handler : Bytes → Option T.Query → ModuleBuilder T → ModuleBuilder T
  with_query_handler path handler b =
      let m = b.module_built in
      unless_failed b (
        if bytes_eq path []
        then fail b empty_message_type
        else if not (is_some handler)
        then fail b nil_dereference
        else if is_some (lookup path m.query_handlers)
        then fail b duplicate_handler
        else with_module b (record m { query_handlers = insert path handler m.query_handlers }))

  unfoldable pub with_query_handlers : Dict (Option T.Query) → ModuleBuilder T → ModuleBuilder T
  unfolding with_query_handler
  with_query_handlers [] b = b
  with_query_handlers ((path, handler) ∷ handlers) b =
      with_query_handlers handlers (with_query_handler path handler b)

  unfoldable pub with_begin_blocker : Option T.Begin → ModuleBuilder T → ModuleBuilder T
  with_begin_blocker handler b =
      let m = b.module_built in
      unless_failed b (
        if not (is_some handler)
        then fail b nil_dereference
        else if is_some m.begin_block
        then fail b duplicate_handler
        else with_module b (record m { begin_block = handler }))

  unfoldable pub with_end_blocker : Option T.End → ModuleBuilder T → ModuleBuilder T
  with_end_blocker handler b =
      let m = b.module_built in
      unless_failed b (
        if not (is_some handler)
        then fail b nil_dereference
        else if is_some m.end_block
        then fail b duplicate_handler
        else with_module b (record m { end_block = handler }))

  unfoldable pub with_init_genesis : Option T.Init → ModuleBuilder T → ModuleBuilder T
  with_init_genesis handler b =
      let m = b.module_built in
      unless_failed b (
        if not (is_some handler)
        then fail b nil_dereference
        else if is_some m.init_genesis
        then fail b duplicate_handler
        else with_module b (record m { init_genesis = handler }))

  unfoldable pub with_export_genesis : Option T.Export → ModuleBuilder T → ModuleBuilder T
  with_export_genesis handler b =
      let m = b.module_built in
      unless_failed b (
        if not (is_some handler)
        then fail b nil_dereference
        else if is_some m.export_genesis
        then fail b duplicate_handler
        else with_module b (record m { export_genesis = handler }))

  abbrev pub validated : Module T → Outcome (Unit {0}) → Outcome (Module T)
  validated m (ok _) = ok m
  validated m (err e) = err e

  unfoldable pub build : ModuleBuilder T → Outcome (Module T)
  build b = elim b.error [
    | some e ↦ err e
    | none ↦ validated b.module_built (validate_module b.module_built)
  ]
