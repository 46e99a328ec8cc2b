-- ===== src/Encapsulation/Steps.antt =====
-- packages/core/src/context.ts: what plugins and the application do to the contexts, as steps.
use celsian.Base.{ℕ, Bool, Option, none, some, List, [], ◌∷◌, Text, text_eq}
use celsian.Router.Types.{RouteMethod}
use celsian.Encapsulation.Types.{HookName, LocalHooks, App}
use celsian.Encapsulation.Contexts.{
  HandlerOrOptions, create_child, create_context_scope, route, route_by_verb, add_hook, decorate,
  decorate_request, decorate_reply, flush,
}

-- What plugins and the application do, the context that acts first. A plugin that is registered
-- with `encapsulate: false` acts through the context itself, any other through a child.
pub data ScopeOp (H V R : Type 0) : Type 0 where
  child_op : ℕ → (prefix : Text) → ScopeOp H V R
  context_scope_op : ℕ → ScopeOp H V R
  route_op : ℕ → List RouteMethod → Text → R → LocalHooks H → ScopeOp H V R
  verb_op : ℕ → RouteMethod → Text → HandlerOrOptions H R → Option R → ScopeOp H V R
  hook_op : ℕ → HookName → H → ScopeOp H V R
  decorate_op : ℕ → Text → V → ScopeOp H V R
  decorate_request_op : ℕ → Text → V → (app_wide : Bool) → ScopeOp H V R
  decorate_reply_op : ℕ → Text → V → ScopeOp H V R
  flush_op : ScopeOp H V R

module _ {H V R : Type 0} where
  abbrev pub or_same : App H V R → Option (App H V R) → App H V R
  or_same app none = app
  or_same app (some app') = app'

  unfoldable pub step : ScopeOp H V R → App H V R → App H V R
  step (child_op c prefix) app = (create_child c prefix app).1
  step (context_scope_op c) app = create_context_scope c app
  step (route_op c methods url handler local) app = (route c methods url handler local app).0
  step (verb_op c method url given trailing) app = (route_by_verb c method url given trailing app).0
  step (hook_op c name handler) app = add_hook c name handler app
  step (decorate_op c name value) app = or_same app (decorate c name value app)
  step (decorate_request_op c name value app_wide) app = decorate_request c name value app_wide app
  step (decorate_reply_op c name value) app = decorate_reply c name value app
  step flush_op app = flush app

  unfoldable pub run : List (ScopeOp H V R) → App H V R → App H V R
  run [] app = app
  run (op ∷ ops) app = run ops (step op app)
