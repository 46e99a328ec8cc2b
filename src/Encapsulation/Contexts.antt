-- ===== src/Encapsulation/Contexts.antt =====
-- packages/core/src/context.ts: `EncapsulationContext` and `ScopeRegistry` by their operations. The
-- arguments of a plugin are the operations that it calls, in their order.
use celsian.Base.{
  ℕ, zero, suc, Bool, true, false, Option, none, some, List, [], ◌∷◌, ◌++◌, map, Text, text_eq,
  ◌==◌, nat_beq, length, if◌then◌else◌,
}
use celsian.Map
use celsian.Map.{Map}
use celsian.Router.{add_route}
use celsian.Router.Types.{RouteMethod, InternalRoute, Router}
use celsian.Router.Tree.{RouteError}
use celsian.Encapsulation.Types.{
  HookName, create_hook_store, push_hook, LocalHooks, empty_local_hooks, create_scope, Context, App,
}
use celsian.Encapsulation.Scopes.{resolve_binding}

module _ {H V : Type 0} where
  abbrev pub root_context : Text → Context H V
  root_context prefix = record {
    parent = none;
    prefix = prefix;
    transparent = prefix == [];
    children = [];
    hooks = create_hook_store;
    decorations = [];
    request_decorations = [];
    reply_decorations = [];
  }

  -- The constructor under a parent: hooks and decorations of requests and replies are not copied.
  abbrev pub child_context : ℕ → Context H V → Text → Context H V
  child_context parent p prefix = record {
    parent = some parent;
    prefix = p.prefix ++ prefix;
    transparent = prefix == [];
    children = [];
    hooks = create_hook_store;
    decorations = p.decorations;
    request_decorations = [];
    reply_decorations = [];
  }

  abbrev pub write : ℕ → Context H V → (ℕ → Context H V) → ℕ → Context H V
  write c new contexts i = if nat_beq i c then new else contexts i

  -- `while (target.parent) target = target.parent`
  unfoldable pub root_of : (contexts : ℕ → Context H V) → ℕ → ℕ → ℕ
  root_of contexts zero c = c
  root_of contexts (suc n) c = elim (contexts c).parent [ none ↦ c | some p ↦ root_of contexts n p ]

pub data HandlerOrOptions (H R : Type 0) : Type 0 where
  function : R → HandlerOrOptions H R
  options : Option R → LocalHooks H → HandlerOrOptions H R

pub data VerbError : Type 0 where
  no_handler : VerbError
  route_refused : RouteError → VerbError

abbrev pub resolve_handler : {R : Type 0} → (trailing given : Option R) → Option R
resolve_handler (some handler) given = some handler
resolve_handler none given = given

abbrev pub refused : {A : Type 0} → A × Option RouteError → A × Option VerbError
refused (a, none) = (a, none)
refused (a, some e) = (a, some (route_refused e))

module _ {H V R : Type 0} where
  -- A new application: its root context, and beyond it memory that nothing refers to.
  unfoldable pub new_app : Text → Router (R × ℕ) → App H V R
  new_app prefix router = record {
    contexts = λ i. root_context prefix;
    next = 1;
    bindings = [];
    dirty = false;
    router = router;
  }

  unfoldable pub create_child : ℕ → Text → App H V R → ℕ × App H V R
  create_child c prefix app =
      let p = app.contexts c in
      let child = app.next in
      (
        child,
        record app {
          contexts =
              write c (record p { children = p.children ++ child ∷ [] })
                (write child (child_context c p prefix) app.contexts);
          next = suc child;
          dirty = true;
        },
      )

  unfoldable pub register_binding : ℕ → LocalHooks H → App H V R → App H V R
  register_binding c local app = record app {
    bindings = app.bindings ++ record { ctx = c; local = local; scope = create_scope } ∷ [];
    dirty = true;
  }

  abbrev pub create_context_scope : ℕ → App H V R → App H V R
  create_context_scope c app = register_binding c empty_local_hooks app

  -- `addRoute`: the binding stays where the router refuses the route.
  unfoldable pub add_scoped_route :
      ℕ → RouteMethod → Text → R → LocalHooks H → App H V R → App H V R × Option RouteError
  add_scoped_route c method url handler local app =
      let full_url = (app.contexts c).prefix ++ url in
      let route : InternalRoute (R × ℕ) = record {
        method = method;
        url = full_url;
        handler = (handler, length app.bindings);
      } in
      let (router, error) = add_route route app.router in
      (record (register_binding c local app) { router = router }, error)

  -- `route(options)`: one route for each method, up to the first that is refused.
  unfoldable pub route :
      ℕ → List RouteMethod → Text → R → LocalHooks H → App H V R → App H V R × Option RouteError
  route c [] url handler local app = (app, none)
  route c (m ∷ ms) url handler local app =
      let (app', error) = add_scoped_route c m url handler local app in
      elim error [ some e ↦ (app', some e) | none ↦ route c ms url handler local app' ]

  -- `get`, `post`, `put`, `patch` and `delete`: what stands after the url is a handler or options, and
  -- after options there may be a handler, which goes before theirs.
  unfoldable pub route_by_verb :
      ℕ
      → RouteMethod
      → Text
      → HandlerOrOptions H R
      → Option R
      → App H V R
      → App H V R × Option VerbError
  route_by_verb c method url (function handler) trailing app =
      refused (add_scoped_route c method url handler empty_local_hooks app)
  route_by_verb c method url (options given local) trailing app =
      elim (resolve_handler trailing given) [
        | none ↦ (app, some no_handler)
        | some handler ↦ refused (add_scoped_route c method url handler local app)
      ]

  unfoldable pub add_hook : ℕ → HookName → H → App H V R → App H V R
  add_hook c name handler app =
      let p = app.contexts c in
      record app {
        contexts = write c (record p { hooks = push_hook name handler p.hooks }) app.contexts;
        dirty = true;
      }

  -- `decorate`: `none` where `assertDecorationUnique` throws.
  unfoldable pub decorate : ℕ → Text → V → App H V R → Option (App H V R)
  decorate c name value app =
      let p = app.contexts c in
      if Map.has name p.decorations
      then none
      else some (record app {
        contexts =
            write c (record p { decorations = Map.set name value p.decorations }) app.contexts;
      })

  -- `app_wide` is `options.scope === "app"`.
  abbrev pub target_of : Bool → ℕ → App H V R → ℕ
  target_of app_wide c app = if app_wide then root_of app.contexts app.next c else c

  unfoldable pub decorate_request : ℕ → Text → V → Bool → App H V R → App H V R
  decorate_request c name value app_wide app =
      let t = target_of app_wide c app in
      let p = app.contexts t in
      record app {
        contexts =
            write t (record p { request_decorations = Map.set name value p.request_decorations })
              app.contexts;
        dirty = true;
      }

  abbrev pub get_request_decoration : ℕ → Text → Bool → App H V R → Option V
  get_request_decoration c name app_wide app =
      Map.get name (app.contexts (target_of app_wide c app)).request_decorations

  unfoldable pub decorate_reply : ℕ → Text → V → App H V R → App H V R
  decorate_reply c name value app =
      let p = app.contexts c in
      record app {
        contexts =
            write c (record p { reply_decorations = Map.set name value p.reply_decorations })
              app.contexts;
        dirty = true;
      }

  unfoldable pub flush : App H V R → App H V R
  flush app =
      if app.dirty
      then record app {
        dirty = false;
        bindings = map (resolve_binding app.contexts app.next) app.bindings;
      }
      else app
