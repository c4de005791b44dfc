-- ===== src/Module/Built.antt =====
-- The modules that the builder of module/builder.go makes.
use punnet_sdk.Base.{
  ◌≡◌, refl, not, List, [], ◌∷◌, Option, none, some, Outcome, ok, err, Error, invalid_dependency,
  empty_message_type, nil_dereference, duplicate_handler,
}
use punnet_sdk.Base.Bytes.{Bytes, bytes_eq}
use punnet_sdk.Base.Dict.{Dict, lookup, is_some}
use punnet_sdk.Module.Base.{HandlerTypes, Module, validate_module}
use punnet_sdk.Module.Builder.{
  ModuleBuilder, new_module_builder, has_dependency, with_dependency, with_dependencies,
  with_msg_handler, with_msg_handlers, with_query_handler, with_query_handlers, with_begin_blocker,
  with_end_blocker, with_init_genesis, with_export_genesis, build,
}
use punnet_sdk.Module.Checks.{
  not-false, check_dependencies-append, check_handlers-insert, IsSound, whole, parts,
  unless-IsSound, test-IsSound, new-IsSound,
}

-- The calls of a builder.
pub data BuilderCall (T : HandlerTypes) : Type 0 where
  dependency : Bytes → BuilderCall T
  dependencies : List Bytes → BuilderCall T
  msg_handler : Bytes → Option T.Msg → BuilderCall T
  msg_handlers : Dict (Option T.Msg) → BuilderCall T
  query_handler : Bytes → Option T.Query → BuilderCall T
  query_handlers : Dict (Option T.Query) → BuilderCall T
  begin_blocker : Option T.Begin → BuilderCall T
  end_blocker : Option T.End → BuilderCall T
  init_genesis : Option T.Init → BuilderCall T
  export_genesis : Option T.Export → BuilderCall T

module _ {T : HandlerTypes} where
  abbrev pub call : BuilderCall T → ModuleBuilder T → ModuleBuilder T
  call (dependency name) b = with_dependency name b
  call (dependencies names) b = with_dependencies names b
  call (msg_handler kind handler) b = with_msg_handler kind handler b
  call (msg_handlers handlers) b = with_msg_handlers handlers b
  call (query_handler path handler) b = with_query_handler path handler b
  call (query_handlers handlers) b = with_query_handlers handlers b
  call (begin_blocker handler) b = with_begin_blocker handler b
  call (end_blocker handler) b = with_end_blocker handler b
  call (init_genesis handler) b = with_init_genesis handler b
  call (export_genesis handler) b = with_export_genesis handler b

  abbrev pub calls : List (BuilderCall T) → ModuleBuilder T → ModuleBuilder T
  calls [] b = b
  calls (c ∷ cs) b = calls cs (call c b)

module _ {T : HandlerTypes} where
  with_dependency-IsSound :
      (name : Bytes) (b : ModuleBuilder T) → IsSound b → IsSound (with_dependency name b)
  unfolding with_dependency lookup
  with_dependency-IsSound name b h = unless-IsSound b _ h (λ e.
      test-IsSound (bytes_eq name []) b _ invalid_dependency (λ n.
        test-IsSound (bytes_eq name b.module_built.name) b _ invalid_dependency (λ self.
          test-IsSound (has_dependency name b.module_built.dependencies) b _ invalid_dependency
            (λ new _.
              let c = parts b.module_built (h e) in
              whole _ (record {
                named = c.named;
                dependencies_ok =
                    check_dependencies-append b.module_built.name name []
                      b.module_built.dependencies c.dependencies_ok n self new refl;
                msg_handlers_ok = c.msg_handlers_ok;
                query_handlers_ok = c.query_handlers_ok;
              })))))

  with_msg_handler-IsSound :
      (kind : Bytes) (handler : Option T.Msg) (b : ModuleBuilder T)
      → IsSound b
      → IsSound (with_msg_handler kind handler b)
  unfolding with_msg_handler
  with_msg_handler-IsSound kind handler b h = unless-IsSound b _ h (λ e.
      test-IsSound (bytes_eq kind []) b _ empty_message_type (λ n.
        test-IsSound (not (is_some handler)) b _ nil_dereference (λ given.
          test-IsSound (is_some (lookup kind b.module_built.msg_handlers)) b _ duplicate_handler
            (λ new _.
              let c = parts b.module_built (h e) in
              whole _ (record {
                named = c.named;
                dependencies_ok = c.dependencies_ok;
                msg_handlers_ok =
                    check_handlers-insert kind handler b.module_built.msg_handlers c.msg_handlers_ok
                      n (not-false (is_some handler) given);
                query_handlers_ok = c.query_handlers_ok;
              })))))

  with_query_handler-IsSound :
      (path : Bytes) (handler : Option T.Query) (b : ModuleBuilder T)
      → IsSound b
      → IsSound (with_query_handler path handler b)
  unfolding with_query_handler
  with_query_handler-IsSound path handler b h = unless-IsSound b _ h (λ e.
      test-IsSound (bytes_eq path []) b _ empty_message_type (λ n.
        test-IsSound (not (is_some handler)) b _ nil_dereference (λ given.
          test-IsSound (is_some (lookup path b.module_built.query_handlers)) b _ duplicate_handler
            (λ new _.
              let c = parts b.module_built (h e) in
              whole _ (record {
                named = c.named;
                dependencies_ok = c.dependencies_ok;
                query_handlers_ok =
                    check_handlers-insert path handler b.module_built.query_handlers
                      c.query_handlers_ok n (not-false (is_some handler) given);
                msg_handlers_ok = c.msg_handlers_ok;
              })))))

  with_begin_blocker-IsSound :
      (handler : Option T.Begin) (b : ModuleBuilder T)
      → IsSound b
      → IsSound (with_begin_blocker handler b)
  unfolding with_begin_blocker validate_module
  with_begin_blocker-IsSound handler b h = unless-IsSound b _ h (λ e.
      test-IsSound (not (is_some handler)) b _ nil_dereference (λ given.
        test-IsSound (is_some b.module_built.begin_block) b _ duplicate_handler (λ new _. h e)))

  with_end_blocker-IsSound :
      (handler : Option T.End) (b : ModuleBuilder T)
      → IsSound b
      → IsSound (with_end_blocker handler b)
  unfolding with_end_blocker validate_module
  with_end_blocker-IsSound handler b h = unless-IsSound b _ h (λ e.
      test-IsSound (not (is_some handler)) b _ nil_dereference (λ given.
        test-IsSound (is_some b.module_built.end_block) b _ duplicate_handler (λ new _. h e)))

  with_init_genesis-IsSound :
      (handler : Option T.Init) (b : ModuleBuilder T)
      → IsSound b
      → IsSound (with_init_genesis handler b)
  unfolding with_init_genesis validate_module
  with_init_genesis-IsSound handler b h = unless-IsSound b _ h (λ e.
      test-IsSound (not (is_some handler)) b _ nil_dereference (λ given.
        test-IsSound (is_some b.module_built.init_genesis) b _ duplicate_handler (λ new _. h e)))

  with_export_genesis-IsSound :
      (handler : Option T.Export) (b : ModuleBuilder T)
      → IsSound b
      → IsSound (with_export_genesis handler b)
  unfolding with_export_genesis validate_module
  with_export_genesis-IsSound handler b h = unless-IsSound b _ h (λ e.
      test-IsSound (not (is_some handler)) b _ nil_dereference (λ given.
        test-IsSound (is_some b.module_built.export_genesis) b _ duplicate_handler (λ new _. h e)))

  with_dependencies-IsSound :
      (names : List Bytes) (b : ModuleBuilder T) → IsSound b → IsSound (with_dependencies names b)
  unfolding with_dependencies
  with_dependencies-IsSound [] b h = h
  with_dependencies-IsSound (name ∷ names) b h =
      with_dependencies-IsSound names (with_dependency name b) (with_dependency-IsSound name b h)

  with_msg_handlers-IsSound :
      (handlers : Dict (Option T.Msg)) (b : ModuleBuilder T)
      → IsSound b
      → IsSound (with_msg_handlers handlers b)
  unfolding with_msg_handlers
  with_msg_handlers-IsSound [] b h = h
  with_msg_handlers-IsSound ((kind, x) ∷ handlers) b h =
      with_msg_handlers-IsSound handlers (with_msg_handler kind x b)
        (with_msg_handler-IsSound kind x b h)

  with_query_handlers-IsSound :
      (handlers : Dict (Option T.Query)) (b : ModuleBuilder T)
      → IsSound b
      → IsSound (with_query_handlers handlers b)
  unfolding with_query_handlers
  with_query_handlers-IsSound [] b h = h
  with_query_handlers-IsSound ((path, x) ∷ handlers) b h =
      with_query_handlers-IsSound handlers (with_query_handler path x b)
        (with_query_handler-IsSound path x b h)

  call-IsSound : (c : BuilderCall T) (b : ModuleBuilder T) → IsSound b → IsSound (call c b)
  call-IsSound (dependency name) b h = with_dependency-IsSound name b h
  call-IsSound (dependencies names) b h = with_dependencies-IsSound names b h
  call-IsSound (msg_handler kind x) b h = with_msg_handler-IsSound kind x b h
  call-IsSound (msg_handlers xs) b h = with_msg_handlers-IsSound xs b h
  call-IsSound (query_handler path x) b h = with_query_handler-IsSound path x b h
  call-IsSound (query_handlers xs) b h = with_query_handlers-IsSound xs b h
  call-IsSound (begin_blocker x) b h = with_begin_blocker-IsSound x b h
  call-IsSound (end_blocker x) b h = with_end_blocker-IsSound x b h
  call-IsSound (init_genesis x) b h = with_init_genesis-IsSound x b h
  call-IsSound (export_genesis x) b h = with_export_genesis-IsSound x b h

  calls-IsSound :
      (cs : List (BuilderCall T)) (b : ModuleBuilder T) → IsSound b → IsSound (calls cs b)
  calls-IsSound [] b h = h
  calls-IsSound (c ∷ cs) b h = calls-IsSound cs (call c b) (call-IsSound c b h)

  abbrev pub first_error : ModuleBuilder T → Option Error → Outcome (Module T)
  first_error b none = ok b.module_built
  first_error b (some e) = err e

  built :
      (b : ModuleBuilder T) (o : Option Error) → b.error ≡ o → IsSound b → build b ≡ first_error b o
  unfolding build
  built b none e h = rw (e, h e) refl
  built b (some x) e h = rw (e) refl

  -- A builder, after any calls, builds its module, or fails with the error of a call before: the
  -- validation at the end never fails.
  pub build_lem :
      (name : Bytes) (cs : List (BuilderCall T))
      → build (calls cs (new_module_builder name))
        ≡ first_error
            (calls cs (new_module_builder name))
            (calls cs (new_module_builder name)).error
  build_lem name cs =
      built (calls cs (new_module_builder name)) _ refl
        (calls-IsSound cs (new_module_builder name) (new-IsSound T name))
