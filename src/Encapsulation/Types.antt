-- ===== src/Encapsulation/Types.antt =====
-- packages/core/src/hooks.ts and context.ts: hook stores, contexts and bindings. Contexts refer to one
-- another, so they stand in a heap, by number. A handler of a hook is an `H`, of either kind, and a
-- decoration a `V`.
use celsian.Base.{ℕ, Bool, Option, List, [], ◌∷◌, ◌++◌, Text}
use celsian.Map.{Map}
use celsian.Router.Types.{Router}

pub data HookName : Type 0 where
  on_request pre_parsing pre_validation pre_handler pre_serialization on_send on_response on_error :
      HookName

pub record HookStore (H : Type 0) : Type 0 where
  pub on_request : List H
  pub pre_parsing : List H
  pub pre_validation : List H
  pub pre_handler : List H
  pub pre_serialization : List H
  pub on_send : List H
  pub on_response : List H
  pub on_error : List H

abbrev pub create_hook_store : {H : Type 0} → HookStore H
create_hook_store = record {
  on_request = [];
  pre_parsing = [];
  pre_validation = [];
  pre_handler = [];
  pre_serialization = [];
  on_send = [];
  on_response = [];
  on_error = [];
}

-- `hooks[name]`
abbrev pub at : {H : Type 0} → HookName → HookStore H → List H
at HookName.on_request s = s.on_request
at HookName.pre_parsing s = s.pre_parsing
at HookName.pre_validation s = s.pre_validation
at HookName.pre_handler s = s.pre_handler
at HookName.pre_serialization s = s.pre_serialization
at HookName.on_send s = s.on_send
at HookName.on_response s = s.on_response
at HookName.on_error s = s.on_error

abbrev pub push_hook : {H : Type 0} → HookName → H → HookStore H → HookStore H
push_hook HookName.on_request h s = record s { on_request = s.on_request ++ h ∷ [] }
push_hook HookName.pre_parsing h s = record s { pre_parsing = s.pre_parsing ++ h ∷ [] }
push_hook HookName.pre_validation h s = record s { pre_validation = s.pre_validation ++ h ∷ [] }
push_hook HookName.pre_handler h s = record s { pre_handler = s.pre_handler ++ h ∷ [] }
push_hook HookName.pre_serialization h s = record s {
  pre_serialization = s.pre_serialization ++ h ∷ [];
}
push_hook HookName.on_send h s = record s { on_send = s.on_send ++ h ∷ [] }
push_hook HookName.on_response h s = record s { on_response = s.on_response ++ h ∷ [] }
push_hook HookName.on_error h s = record s { on_error = s.on_error ++ h ∷ [] }

pub record LocalHooks (H : Type 0) : Type 0 where
  pub on_request : List H
  pub pre_handler : List H
  pub pre_serialization : List H
  pub on_send : List H

abbrev pub empty_local_hooks : {H : Type 0} → LocalHooks H
empty_local_hooks = record {
  on_request = [];
  pre_handler = [];
  pre_serialization = [];
  on_send = [];
}

pub record ResolvedScope (H V : Type 0) : Type 0 where
  pub hooks : HookStore H
  pub request_decorations : Map Text V
  pub reply_decorations : Map Text V

abbrev pub create_scope : {H V : Type 0} → ResolvedScope H V
create_scope = record {
  hooks = create_hook_store;
  request_decorations = [];
  reply_decorations = [];
}

pub record Context (H V : Type 0) : Type 0 where
  pub parent : Option ℕ
  pub prefix : Text
  pub transparent : Bool
  pub children : List ℕ
  pub hooks : HookStore H
  pub decorations : Map Text V
  pub request_decorations : Map Text V
  pub reply_decorations : Map Text V

pub record RouteBinding (H V : Type 0) : Type 0 where
  pub ctx : ℕ
  pub local : LocalHooks H
  pub scope : ResolvedScope H V

-- The heap of the contexts, the registry of the bindings with its flag, and the router, in which the
-- handler of a route stands with the number of its binding, whose hook arrays the route shares.
pub record App (H V R : Type 0) : Type 0 where
  pub contexts : ℕ → Context H V
  pub next : ℕ
  pub bindings : List (RouteBinding H V)
  pub dirty : Bool
  pub router : Router (R × ℕ)
