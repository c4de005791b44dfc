-- ===== src/Runtime/Router.antt =====
-- runtime/router.go. A handler is a function of the context, which it may change, and of the message;
-- Go ranges over a module's handlers in no fixed order: here the order is the list's. A module is its
-- name with its handlers.
use punnet_sdk.Base.{
  Bool, List, [], ◌∷◌, ◌++◌, length, ◌==◌, if◌then◌else◌, Option, none, some, Outcome, ok, err,
  fail_if, ◌>>◌, handler_not_found, duplicate_handler, empty_message_type, empty_path,
}
use punnet_sdk.Base.Bytes.{Bytes}
use punnet_sdk.Base.Dict.{Dict, lookup, insert, is_some}
use punnet_sdk.Effects.Effect.{Effect}
use punnet_sdk.Runtime.Context.{Context}
use punnet_sdk.Store.Memory.{sort_strings}
use punnet_sdk.Types.Transaction.{Message}

abbrev pub MsgHandler : Type 0 → Type 0 → Type 0
MsgHandler M V = Context V → M → Outcome (List (Effect V)) × Context V

abbrev pub QueryHandler : Type 0
QueryHandler = Bytes → Bytes → Outcome Bytes

pub record Module (M V : Type 0) : Type 0 where
  pub name : Bytes
  pub module_msg_handlers : Dict (MsgHandler M V)
  pub module_query_handlers : Dict QueryHandler

pub record Router (M V : Type 0) : Type 0 where
  pub msg_handlers : Dict (MsgHandler M V)
  pub query_handlers : Dict QueryHandler
  pub modules : List (Module M V)

-- The loop over the handlers of a module: those before an error stay registered.
unfoldable pub register_all {ℓ} : {H : Type ℓ} → Dict H → Dict H → Outcome (Unit {0}) × Dict H
register_all [] handlers = (ok tt, handlers)
register_all ((key, handler) ∷ rest) handlers =
    let registered = register_all rest (insert key handler handlers) in
    if length key == 0
    then (err empty_message_type, handlers)
    else if is_some (lookup key handlers)
    then (err duplicate_handler, handlers)
    else registered

abbrev pub keys_of {ℓ} : {H : Type ℓ} → Dict H → List Bytes
keys_of [] = []
keys_of ((k, h) ∷ m) = k ∷ keys_of m

abbrev pub query_with : Option QueryHandler → QueryHandler
query_with none path d = err handler_not_found
query_with (some handler) path d = handler path d

module _ {M V : Type 0} where
  abbrev pub new_router : Router M V
  new_router = record { msg_handlers = []; query_handlers = []; modules = [] }

  abbrev pub with_queries :
      Module M V
      → Router M V
      → Outcome (Unit {0}) × Dict QueryHandler
      → Outcome (Unit {0}) × Router M V
  with_queries m r (ok _, queries) =
      (ok tt, record r { query_handlers = queries; modules = r.modules ++ m ∷ [] })
  with_queries m r (err e, queries) = (err e, record r { query_handlers = queries })

  abbrev pub with_messages :
      Module M V
      → Router M V
      → Outcome (Unit {0}) × Dict (MsgHandler M V)
      → Outcome (Unit {0}) × Router M V
  with_messages m r (ok _, messages) =
      with_queries m (record r { msg_handlers = messages })
        (register_all m.module_query_handlers r.query_handlers)
  with_messages m r (err e, messages) = (err e, record r { msg_handlers = messages })

  unfoldable pub register_module : Module M V → Router M V → Outcome (Unit {0}) × Router M V
  unfolding register_all
  register_module m r = with_messages m r (register_all m.module_msg_handlers r.msg_handlers)

  abbrev pub handle_with :
      Option (MsgHandler M V) → Context V → M → Outcome (List (Effect V)) × Context V
  handle_with none c m = (err handler_not_found, c)
  handle_with (some handler) c m = handler c m

  unfoldable pub route_msg :
      Message M → Router M V → Context V → M → Outcome (List (Effect V)) × Context V
  route_msg message r c m =
      let kind = message.message_type m in
      if length kind == 0
      then (err empty_message_type, c)
      else handle_with (lookup kind r.msg_handlers) c m

  unfoldable pub route_query : Router M V → Bytes → Bytes → Outcome Bytes
  route_query r path d = do
    fail_if (length path == 0) empty_path
    query_with (lookup path r.query_handlers) path d

  unfoldable pub has_msg_handler : Router M V → Bytes → Bool
  has_msg_handler r kind = is_some (lookup kind r.msg_handlers)

  unfoldable pub has_query_handler : Router M V → Bytes → Bool
  has_query_handler r path = is_some (lookup path r.query_handlers)

  unfoldable pub msg_types : Router M V → List Bytes
  msg_types r = sort_strings (keys_of r.msg_handlers)

  unfoldable pub query_paths : Router M V → List Bytes
  query_paths r = sort_strings (keys_of r.query_handlers)
