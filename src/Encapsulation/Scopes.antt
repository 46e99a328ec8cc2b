-- ===== src/Encapsulation/Scopes.antt =====
-- packages/core/src/context.ts: how the hooks and decorations of a route are resolved.
use celsian.Base.{
  ℕ, zero, suc, true, false, not, ◌||◌, Option, none, some, List, [], ◌∷◌, ◌++◌, Text, text_eq,
  nat_beq, any,
}
use celsian.Map
use celsian.Map.{Map}
use celsian.Encapsulation.Types.{
  HookStore, LocalHooks, ResolvedScope, create_scope, Context, RouteBinding,
}

module _ {H : Type 0} where
  abbrev pub append_hooks : HookStore H → HookStore H → HookStore H
  append_hooks s t = record {
    on_request = s.on_request ++ t.on_request;
    pre_parsing = s.pre_parsing ++ t.pre_parsing;
    pre_validation = s.pre_validation ++ t.pre_validation;
    pre_handler = s.pre_handler ++ t.pre_handler;
    pre_serialization = s.pre_serialization ++ t.pre_serialization;
    on_send = s.on_send ++ t.on_send;
    on_response = s.on_response ++ t.on_response;
    on_error = s.on_error ++ t.on_error;
  }

  -- The hooks of the route itself come last.
  abbrev pub local_store : LocalHooks H → HookStore H
  local_store l = record {
    on_request = l.on_request;
    pre_parsing = [];
    pre_validation = [];
    pre_handler = l.pre_handler;
    pre_serialization = l.pre_serialization;
    on_send = l.on_send;
    on_response = [];
    on_error = [];
  }

module _ {V : Type 0} where
  unfoldable pub set_each : Map Text V → Map Text V → Map Text V
  set_each target [] = target
  set_each target ((name, value) ∷ rest) = set_each (Map.set name value target) rest

module _ {H V : Type 0} where
  -- `collectTransparent`, over the children `cs`, with `seen` and the contexts collected so far. The
  -- fuel bounds the depth of the tree.
  unfoldable pub collect_transparent :
      (contexts : ℕ → Context H V) → ℕ → List ℕ → List ℕ × List ℕ → List ℕ × List ℕ
  collect_transparent contexts zero cs st = st
  collect_transparent contexts (suc n) [] st = st
  collect_transparent contexts (suc n) (c ∷ cs) (seen, out) =
      collect_transparent contexts (suc n) cs
        (elim (not (contexts c).transparent || any (nat_beq c) seen) [
          | true ↦ (seen, out)
          | false ↦ collect_transparent contexts n (contexts c).children (c ∷ seen, out ++ c ∷ [])
        ])

  -- The chain of a context, its root first, by the loop over `ctx.parent`.
  unfoldable pub chain_of : (contexts : ℕ → Context H V) → ℕ → Option ℕ → List ℕ → List ℕ
  chain_of contexts zero c chain = chain
  chain_of contexts (suc n) none chain = chain
  chain_of contexts (suc n) (some c) chain = chain_of contexts n (contexts c).parent (c ∷ chain)

  unfoldable pub collect_chain :
      (contexts : ℕ → Context H V) → ℕ → List ℕ → List ℕ × List ℕ → List ℕ
  collect_chain contexts n [] (seen, ordered) = ordered
  collect_chain contexts n (c ∷ chain) (seen, ordered) =
      collect_chain contexts n chain
        (collect_transparent contexts n (contexts c).children (seen, ordered ++ c ∷ []))

  abbrev pub collect_scope_contexts : (contexts : ℕ → Context H V) (size : ℕ) (leaf : ℕ) → List ℕ
  collect_scope_contexts contexts size leaf =
      let chain = chain_of contexts size (some leaf) [] in
      collect_chain contexts size chain (chain, [])

  abbrev pub add_context : Context H V → ResolvedScope H V → ResolvedScope H V
  add_context c s = record {
    hooks = append_hooks s.hooks c.hooks;
    request_decorations = set_each s.request_decorations c.request_decorations;
    reply_decorations = set_each s.reply_decorations c.reply_decorations;
  }

  unfoldable pub add_contexts :
      (contexts : ℕ → Context H V) → List ℕ → ResolvedScope H V → ResolvedScope H V
  add_contexts contexts [] s = s
  add_contexts contexts (c ∷ cs) s = add_contexts contexts cs (add_context (contexts c) s)

  unfoldable pub resolved :
      (contexts : ℕ → Context H V) (size : ℕ) → ℕ → LocalHooks H → ResolvedScope H V
  resolved contexts size leaf local =
      let s = add_contexts contexts (collect_scope_contexts contexts size leaf) create_scope in
      record s { hooks = append_hooks s.hooks (local_store local) }

  abbrev pub resolve_binding :
      (contexts : ℕ → Context H V) (size : ℕ) → RouteBinding H V → RouteBinding H V
  resolve_binding contexts size b = record b { scope = resolved contexts size b.ctx b.local }
