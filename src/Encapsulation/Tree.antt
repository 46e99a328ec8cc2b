-- ===== src/Encapsulation/Tree.antt =====
-- packages/core/src/context.ts: the contexts stay a tree, whatever plugins do.
use celsian.Base.{
  ◌≡◌, refl, ◌↔◌, ◌<◌, suc, ◌++◌, nat_beq, arith, sym, subst, inl, inr, ℕ, Option, none, some, List,
  [], ◌∷◌, Text, text_eq, All, Bool-cases,
}
use celsian.Map
use celsian.Router.Types.{RouteMethod, Router}
use celsian.Encapsulation.Types.{HookName, at, LocalHooks, empty_local_hooks, Context, App}
use celsian.Encapsulation.Scopes.{local_store, resolved}
use celsian.Encapsulation.Contexts.{
  write, child_context, target_of, new_app, create_child, register_binding, add_scoped_route, route,
  add_hook, decorate, decorate_request, decorate_reply, flush, HandlerOrOptions, function, options,
  route_by_verb,
}
use celsian.Encapsulation.Steps.{
  ScopeOp, child_op, context_scope_op, route_op, verb_op, hook_op, decorate_op, decorate_request_op,
  decorate_reply_op, flush_op, step, run,
}
use celsian.Encapsulation.Branches.{flush_dirty, flush_clean, then_lem, refused_lem}
use celsian.Encapsulation.Visits.{Has, Has-append_cases, IsTree}
use celsian.Encapsulation.Isolation.{InScope}
use celsian.Encapsulation.Complete.{resolved-InScope_iff}

module _ {H V : Type 0} (contexts : ℕ → Context H V) (size : ℕ) (tree : IsTree contexts size) where
  -- A change of a context that leaves its parent and its children.
  IsTree-write :
      (c : ℕ) (new : Context H V)
      → new.children ≡ (contexts c).children
      → new.parent ≡ (contexts c).parent
      → IsTree (write c new contexts) size
  IsTree-write c new same_children same_parent = record {
    child_after = λ a d child. elim (Bool-cases (nat_beq a c)) [
      | inl is ↦
          let at_c : a ≡ c = ground arith in
          rw at_c (tree.child_after c d (rw (is, same_children) at child))
      | inr other ↦ tree.child_after a d (rw other at child)
    ];
    parent_before = λ a p e. elim (Bool-cases (nat_beq a c)) [
      | inl is ↦
          let at_c : a ≡ c = ground arith in
          rw at_c (tree.parent_before c p (rw (is, same_parent) at e))
      | inr other ↦ tree.parent_before a p (rw other at e)
    ];
  }

  -- A new child stands behind all the contexts that there are.
  IsTree-child :
      (c : ℕ) (prefix : Text)
      → c < size
      → IsTree
          (write c
            (record (contexts c) { children = (contexts c).children ++ size ∷ [] })
            (write size (child_context c (contexts c) prefix) contexts))
          (suc size)
  IsTree-child c prefix within = record {
    child_after = λ a d child. elim (Bool-cases (nat_beq a c)) [
      | inl is ↦
          let at_c : a ≡ c = ground arith in
          elim (Has-append_cases d (contexts c).children size (rw is at child)) [
            | inl old ↦ let (after, below) = tree.child_after c d old in (omega arith, omega arith)
            | inr new ↦ (omega arith, omega arith)
          ]
      | inr other ↦ elim (Bool-cases (nat_beq a size)) [
        | inl is ↦ absurd (nothing d (rw (other, is) at child))
        | inr outside ↦
            let (after, below) = tree.child_after a d (rw (other, outside) at child) in
            (after, omega arith)
      ]
    ];
    parent_before = λ a p e. elim (Bool-cases (nat_beq a c)) [
      | inl is ↦ let at_c : a ≡ c = ground arith in rw at_c (tree.parent_before c p (rw is at e))
      | inr other ↦ elim (Bool-cases (nat_beq a size)) [
        | inl is ↦
            let at_size : a ≡ size = ground arith in
            let up : p ≡ c = only_parent p (rw (other, is) at e) in omega arith
        | inr outside ↦ tree.parent_before a p (rw (other, outside) at e)
      ]
    ];
  }
    where
      nothing : (d : ℕ) → Has d [] → ⊥
      nothing d h = cc

      only_parent : (p : ℕ) → ◌≡◌ {A = Option ℕ} (some c) (some p) → p ≡ c
      only_parent p e = cc

module _ {H V R : Type 0} where
  abbrev pub IsTreeOf : App H V R → Type 0
  IsTreeOf app = IsTree app.contexts app.next

  -- A child is made of a context that there is.
  abbrev pub IsAllocated : ScopeOp H V R → App H V R → Type 0
  IsAllocated (child_op c prefix) app = c < app.next
  IsAllocated _ app = Unit

  unfoldable pub AreAllocated : List (ScopeOp H V R) → App H V R → Type 0
  AreAllocated [] app = Unit
  AreAllocated (op ∷ ops) app = IsAllocated op app × AreAllocated ops (step op app)

  flush-IsTreeOf : (app : App H V R) → IsTreeOf app → IsTreeOf (flush app)
  flush-IsTreeOf app h = elim (Bool-cases app.dirty) [
    | inl dirty ↦ subst IsTreeOf (sym (flush_dirty app dirty)) h
    | inr clean ↦ subst IsTreeOf (sym (flush_clean app clean)) h
  ]

  add_scoped_route-IsTreeOf :
      (c : ℕ) (m : RouteMethod) (url : Text) (handler : R) (local : LocalHooks H) (app : App H V R)
      → IsTreeOf app
      → IsTreeOf (add_scoped_route c m url handler local app).0
  unfolding add_scoped_route register_binding
  add_scoped_route-IsTreeOf c m url handler local app h = h

  route-IsTreeOf :
      (c : ℕ) (ms : List RouteMethod) (url : Text) (handler : R) (local : LocalHooks H)
      (app : App H V R)
      → IsTreeOf app
      → IsTreeOf (route c ms url handler local app).0
  unfolding route
  route-IsTreeOf c [] url handler local app h = h
  route-IsTreeOf c (m ∷ ms) url handler local app h =
      then_lem IsTreeOf (add_scoped_route c m url handler local app) (route c ms url handler local)
        (add_scoped_route-IsTreeOf c m url handler local app h)
        (route-IsTreeOf c ms url handler local)

  route_by_verb-IsTreeOf :
      (c : ℕ) (m : RouteMethod) (url : Text) (given : HandlerOrOptions H R) (trailing : Option R)
      (app : App H V R)
      → IsTreeOf app
      → IsTreeOf (route_by_verb c m url given trailing app).0
  unfolding route_by_verb
  route_by_verb-IsTreeOf c m url (function handler) trailing app h =
      refused_lem IsTreeOf (add_scoped_route c m url handler empty_local_hooks app)
        (add_scoped_route-IsTreeOf c m url handler empty_local_hooks app h)
  route_by_verb-IsTreeOf c m url (options given local) (some handler) app h =
      refused_lem IsTreeOf (add_scoped_route c m url handler local app)
        (add_scoped_route-IsTreeOf c m url handler local app h)
  route_by_verb-IsTreeOf c m url (options (some handler) local) none app h =
      refused_lem IsTreeOf (add_scoped_route c m url handler local app)
        (add_scoped_route-IsTreeOf c m url handler local app h)
  route_by_verb-IsTreeOf c m url (options none local) none app h = h

  step-IsTreeOf :
      (op : ScopeOp H V R) (app : App H V R)
      → IsAllocated op app
      → IsTreeOf app
      → IsTreeOf (step op app)
  unfolding step create_child register_binding add_hook decorate decorate_request decorate_reply
  step-IsTreeOf (child_op c prefix) app v h = IsTree-child app.contexts app.next h c prefix v
  step-IsTreeOf (context_scope_op c) app v h = h
  step-IsTreeOf (route_op c ms url handler local) app v h =
      route-IsTreeOf c ms url handler local app h
  step-IsTreeOf (verb_op c m url given trailing) app v h =
      route_by_verb-IsTreeOf c m url given trailing app h
  step-IsTreeOf (hook_op c name handler) app v h =
      IsTree-write app.contexts app.next h c _ refl refl
  step-IsTreeOf (decorate_op c name value) app v h =
      elim (Bool-cases (Map.has name (app.contexts c).decorations)) [
        | inl there ↦ rw there h
        | inr new ↦ rw new (IsTree-write app.contexts app.next h c _ refl refl)
      ]
  step-IsTreeOf (decorate_request_op c name value wide) app v h =
      IsTree-write app.contexts app.next h (target_of wide c app) _ refl refl
  step-IsTreeOf (decorate_reply_op c name value) app v h =
      IsTree-write app.contexts app.next h c _ refl refl
  step-IsTreeOf flush_op app v h = flush-IsTreeOf app h

  run-IsTreeOf :
      (ops : List (ScopeOp H V R)) (app : App H V R)
      → AreAllocated ops app
      → IsTreeOf app
      → IsTreeOf (run ops app)
  unfolding run AreAllocated
  run-IsTreeOf [] app v h = h
  run-IsTreeOf (op ∷ ops) app (v, vs) h =
      run-IsTreeOf ops (step op app) vs (step-IsTreeOf op app v h)

  new_app-IsTreeOf : (prefix : Text) (router : Router (R × ℕ)) → IsTreeOf (new_app prefix router)
  unfolding new_app
  new_app-IsTreeOf prefix router = record {
    child_after = λ c d h. absurd (cc);
    parent_before = λ c p e. absurd (cc);
  }

  -- After any steps of plugins, with children only of contexts that there are, the hooks of a route are exactly its
  -- own and those of the contexts in scope: something holds of all hooks that the route runs exactly
  -- when it holds of these. In scope are the contexts above the route, and from each of them down
  -- those of plugins without a prefix, so the hooks of a plugin with a prefix stay inside it.
  pub run-InScope_iff :
      (ops : List (ScopeOp H V R)) (prefix : Text) (router : Router (R × ℕ)) (app : App H V R)
      (name : HookName) (P : H → Type 0) (leaf : ℕ) (local : LocalHooks H)
      → AreAllocated ops (new_app prefix router)
      → run ops (new_app prefix router) ≡ app
      → leaf < app.next
      → All P (at name (resolved app.contexts app.next leaf local).hooks) ↔ (
          ((c : ℕ) → InScope app.contexts leaf c → All P (at name (app.contexts c).hooks))
          × All P (at name (local_store local)))
  run-InScope_iff ops prefix router app name P leaf local allocated ran within =
      resolved-InScope_iff app.contexts app.next
        (subst IsTreeOf ran
          (run-IsTreeOf ops (new_app prefix router) allocated (new_app-IsTreeOf prefix router)))
        leaf within name P local
