-- ===== src/Encapsulation/Tests.antt =====
-- Runs of packages/core/src/context.ts, and its theorems at concrete applications.
use celsian.Base.{
  ◌≡◌, refl, ◌≢◌, ◌↔◌, ◌<◌, arith, ℕ, none, List, [], ◌∷◌, Text, codes, map, All, text_beq,
  split_on,
}
use celsian.Map
use celsian.Router.{init, add_route}
use celsian.Router.Tree.{add_at, segment_kind, add_fixed, put_route, get_child, set_child}
use celsian.Router.Paths.{split_path, non_empty}
use celsian.Router.Types.{Router, http_get}
use celsian.Encapsulation.Types.{HookName, at, LocalHooks, empty_local_hooks, App}
use celsian.Encapsulation.Scopes.{
  local_store, collect_transparent, chain_of, collect_chain, add_contexts, set_each, resolved,
}
use celsian.Encapsulation.Contexts.{
  new_app, create_child, register_binding, add_scoped_route, route, add_hook, flush,
}
use celsian.Encapsulation.Steps.{ScopeOp, child_op, route_op, hook_op, step, run}
use celsian.Encapsulation.Fresh.{AreUpToDate, flush-run}
use celsian.Encapsulation.Tree.{AreAllocated, run-InScope_iff}
use celsian.Encapsulation.Isolation.{InScope}

abbrev router : Router (ℕ × ℕ)
router = init record { ignore_trailing_slash = none; strict_params = none }

abbrev local : LocalHooks Text
local = record {
  on_request = [];
  pre_handler = codes "own" ∷ [];
  pre_serialization = [];
  on_send = [];
}

-- A plugin without a prefix, one under `/admin`, a route outside and one inside, and then the hooks.
abbrev ops : List (ScopeOp Text ℕ ℕ)
ops =
    child_op 0 []
    ∷ child_op 0 (codes "/admin")
    ∷ route_op 0 (http_get ∷ []) (codes "/x") 0 local
    ∷ route_op 2 (http_get ∷ []) (codes "/y") 1 empty_local_hooks
    ∷ hook_op 2 HookName.pre_handler (codes "auth")
    ∷ hook_op 1 HookName.pre_handler (codes "cors")
    ∷ []

abbrev pre_handlers : App Text ℕ ℕ → List (List Text)
pre_handlers app = map (λ b. b.scope.hooks.pre_handler) app.bindings

ops_test :
    pre_handlers (flush (run ops (new_app [] router)))
    ≡ (codes "cors" ∷ codes "own" ∷ []) ∷ (codes "cors" ∷ codes "auth" ∷ []) ∷ []
unfolding new_app create_child register_binding add_scoped_route route add_hook flush step run
    resolved add_contexts set_each collect_chain chain_of collect_transparent add_route add_at
    split_path non_empty split_on segment_kind add_fixed init put_route get_child Map.get set_child
    text_beq
ops_test = refl

flush-run_example : AreUpToDate (flush (run ops (new_app [] router)))
flush-run_example = flush-run ops [] router

abbrev plugins : List (ScopeOp Text ℕ ℕ)
plugins =
    child_op 0 []
    ∷ child_op 0 (codes "/admin")
    ∷ hook_op 2 HookName.pre_handler (codes "auth")
    ∷ hook_op 1 HookName.pre_handler (codes "cors")
    ∷ []

abbrev started : App Text ℕ ℕ
started = run plugins (new_app [] router)

plugins-AreAllocated : AreAllocated plugins (new_app [] router)
unfolding AreAllocated new_app create_child step
plugins-AreAllocated = (omega arith, (omega arith, (tt, (tt, tt))))

started_next : 0 < started.next
unfolding run new_app create_child add_hook step
started_next = omega arith

abbrev IsNoAuth : Text → Type 0
IsNoAuth h = h ≢ codes "auth"

run-InScope_iff_example :
    All IsNoAuth (at HookName.pre_handler (resolved started.contexts started.next 0 local).hooks)
    ↔ (((c : ℕ)
          → InScope started.contexts 0 c
          → All IsNoAuth (at HookName.pre_handler (started.contexts c).hooks))
        × All IsNoAuth (at HookName.pre_handler (local_store local)))
run-InScope_iff_example =
    run-InScope_iff plugins [] router started HookName.pre_handler IsNoAuth 0 local
      plugins-AreAllocated refl started_next
