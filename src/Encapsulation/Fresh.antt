-- ===== src/Encapsulation/Fresh.antt =====
-- packages/core/src/context.ts: resolution at the next flush is resolution at any time.
use celsian.Base.{
  ◌≡◌, refl, sym, ◌∙◌, subst, inl, inr, ℕ, false, Option, none, some, List, [], ◌∷◌, map, Text,
  text_eq, All, All-imp, Bool-cases,
}
use celsian.Map
use celsian.Router.Types.{RouteMethod, Router}
use celsian.Encapsulation.Types.{LocalHooks, empty_local_hooks, Context, RouteBinding, App}
use celsian.Encapsulation.Scopes.{resolved, resolve_binding}
use celsian.Encapsulation.Contexts.{
  new_app, create_child, register_binding, add_scoped_route, route, add_hook, decorate,
  decorate_request, decorate_reply, flush, HandlerOrOptions, function, options, route_by_verb,
}
use celsian.Encapsulation.Branches.{flush_dirty, flush_clean, then_lem, refused_lem}
use celsian.Encapsulation.Forgotten.{resolved-write}
use celsian.Encapsulation.Steps.{
  ScopeOp, child_op, context_scope_op, route_op, verb_op, hook_op, decorate_op, decorate_request_op,
  decorate_reply_op, flush_op, step, run,
}

module _ {H V : Type 0} (contexts : ℕ → Context H V) where
  resolve_each :
      (size : ℕ) (bs : List (RouteBinding H V))
      → All
          (λ b. b.scope ≡ resolved contexts size b.ctx b.local)
          (map (resolve_binding contexts size) bs)
  resolve_each size [] = tt
  resolve_each size (b ∷ bs) = (refl, resolve_each size bs)

module _ {H V R : Type 0} where
  abbrev pub IsUpToDate : App H V R → RouteBinding H V → Type 0
  IsUpToDate app b = b.scope ≡ resolved app.contexts app.next b.ctx b.local

  -- While the flag is down, every binding is what resolution would make it.
  abbrev IsFresh : App H V R → Type 0
  IsFresh app = app.dirty ≡ false → All (IsUpToDate app) app.bindings

  abbrev pub AreUpToDate : App H V R → Type 0
  AreUpToDate app = All (IsUpToDate app) app.bindings

  flush-fresh : (app : App H V R) → IsFresh app → AreUpToDate (flush app)
  flush-fresh app h = elim (Bool-cases app.dirty) [
    | inl dirty ↦
        subst AreUpToDate (sym (flush_dirty app dirty))
          (resolve_each app.contexts app.next app.bindings)
    | inr clean ↦ subst AreUpToDate (sym (flush_clean app clean)) (h clean)
  ]

  add_scoped_route-IsFresh :
      (c : ℕ) (m : RouteMethod) (url : Text) (handler : R) (local : LocalHooks H) (app : App H V R)
      → IsFresh (add_scoped_route c m url handler local app).0
  unfolding add_scoped_route register_binding
  add_scoped_route-IsFresh c m url handler local app = λ e. absurd (cc)

  route-IsFresh :
      (c : ℕ) (ms : List RouteMethod) (url : Text) (handler : R) (local : LocalHooks H)
      (app : App H V R)
      → IsFresh app
      → IsFresh (route c ms url handler local app).0
  unfolding route
  route-IsFresh c [] url handler local app h = h
  route-IsFresh c (m ∷ ms) url handler local app h =
      then_lem IsFresh (add_scoped_route c m url handler local app) (route c ms url handler local)
        (add_scoped_route-IsFresh c m url handler local app) (route-IsFresh c ms url handler local)

  route_by_verb-IsFresh :
      (c : ℕ) (m : RouteMethod) (url : Text) (given : HandlerOrOptions H R) (trailing : Option R)
      (app : App H V R)
      → IsFresh app
      → IsFresh (route_by_verb c m url given trailing app).0
  unfolding route_by_verb
  route_by_verb-IsFresh c m url (function handler) trailing app h =
      refused_lem IsFresh (add_scoped_route c m url handler empty_local_hooks app)
        (add_scoped_route-IsFresh c m url handler empty_local_hooks app)
  route_by_verb-IsFresh c m url (options given local) (some handler) app h =
      refused_lem IsFresh (add_scoped_route c m url handler local app)
        (add_scoped_route-IsFresh c m url handler local app)
  route_by_verb-IsFresh c m url (options (some handler) local) none app h =
      refused_lem IsFresh (add_scoped_route c m url handler local app)
        (add_scoped_route-IsFresh c m url handler local app)
  route_by_verb-IsFresh c m url (options none local) none app h = h

  decorate-IsFresh :
      (c : ℕ) (name : Text) (value : V) (app : App H V R)
      → IsFresh app
      → IsFresh (step (decorate_op c name value) app)
  unfolding step decorate
  decorate-IsFresh c name value app h =
      elim (Bool-cases (Map.has name (app.contexts c).decorations)) [
        | inl there ↦ rw there h
        | inr new ↦ rw new (λ clean.
            All-imp
              (λ b fresh. fresh ∙ sym (resolved-write app.contexts c _ refl app.next b.ctx b.local))
              app.bindings (h clean))
      ]

  step-IsFresh : (op : ScopeOp H V R) (app : App H V R) → IsFresh app → IsFresh (step op app)
  unfolding step create_child register_binding add_hook decorate_request decorate_reply
  step-IsFresh (child_op c prefix) app h = λ e. absurd (cc)
  step-IsFresh (context_scope_op c) app h = λ e. absurd (cc)
  step-IsFresh (route_op c ms url handler local) app h = route-IsFresh c ms url handler local app h
  step-IsFresh (verb_op c m url given trailing) app h =
      route_by_verb-IsFresh c m url given trailing app h
  step-IsFresh (hook_op c name handler) app h = λ e. absurd (cc)
  step-IsFresh (decorate_op c name value) app h = decorate-IsFresh c name value app h
  step-IsFresh (decorate_request_op c name value wide) app h = λ e. absurd (cc)
  step-IsFresh (decorate_reply_op c name value) app h = λ e. absurd (cc)
  step-IsFresh flush_op app h = λ e. flush-fresh app h

  run-IsFresh : (ops : List (ScopeOp H V R)) (app : App H V R) → IsFresh app → IsFresh (run ops app)
  unfolding run
  run-IsFresh [] app h = h
  run-IsFresh (op ∷ ops) app h = run-IsFresh ops (step op app) (step-IsFresh op app h)

  -- Whatever plugins do, and in whatever order, after a flush every route has the hooks and the
  -- decorations that the contexts of that moment give it, and a flush while the flag is down, which
  -- does nothing, leaves no route behind.
  pub flush-run :
      (ops : List (ScopeOp H V R)) (prefix : Text) (router : Router (R × ℕ))
      → AreUpToDate (flush (run ops (new_app prefix router)))
  unfolding new_app
  flush-run ops prefix router =
      flush-fresh (run ops (new_app prefix router))
        (run-IsFresh ops (new_app prefix router) (λ e. tt))
