-- ===== src/Encapsulation/Isolation.antt =====
-- packages/core/src/context.ts: whose hooks a route runs.
use celsian.Base.{
  ◌≡◌, refl, inl, inr, ℕ, zero, suc, true, not, ◌||◌, Option, none, some, List, [], ◌∷◌, ◌++◌,
  nat_beq, any, All, All-append, All-imp, Bool-cases, arith,
}
use celsian.Encapsulation.Types.{
  HookName, at, HookStore, LocalHooks, ResolvedScope, create_hook_store, create_scope, Context,
}
use celsian.Encapsulation.Scopes.{
  append_hooks, local_store, add_context, add_contexts, collect_transparent, chain_of,
  collect_chain, collect_scope_contexts, resolved,
}

module _ {P : ℕ → Type 0} where
  All-any : (xs : List ℕ) → ((x : ℕ) → any (nat_beq x) xs ≡ true → P x) → All P xs
  All-any [] h = tt
  All-any (x ∷ xs) h = (
    h x (ground arith),
    All-any xs λ y there. h y (
        rw there
          (elim (Bool-cases (nat_beq y x)) [ inl is ↦ rw is refl | inr other ↦ rw other refl ])),
  )

module _ {H : Type 0} where
  pub at-append_hooks :
      (name : HookName) (s t : HookStore H) → at name (append_hooks s t) ≡ at name s ++ at name t
  at-append_hooks HookName.on_request s t = refl
  at-append_hooks HookName.pre_parsing s t = refl
  at-append_hooks HookName.pre_validation s t = refl
  at-append_hooks HookName.pre_handler s t = refl
  at-append_hooks HookName.pre_serialization s t = refl
  at-append_hooks HookName.on_send s t = refl
  at-append_hooks HookName.on_response s t = refl
  at-append_hooks HookName.on_error s t = refl

at-none : {H : Type 0} (name : HookName) (P : H → Type 0) → All P (at name create_hook_store)
at-none HookName.on_request P = tt
at-none HookName.pre_parsing P = tt
at-none HookName.pre_validation P = tt
at-none HookName.pre_handler P = tt
at-none HookName.pre_serialization P = tt
at-none HookName.on_send P = tt
at-none HookName.on_response P = tt
at-none HookName.on_error P = tt

module _ {H V : Type 0} (contexts : ℕ → Context H V) (leaf : ℕ) where
  -- The context of the route, and those above it.
  pub data IsAbove : ℕ → Type 0 where
    own : (c : ℕ) → c ≡ leaf → IsAbove c
    above : (c p : ℕ) → IsAbove c → (contexts c).parent ≡ some p → IsAbove p

  -- Those above, and from them down along plugins without a prefix.
  pub data InScope : ℕ → Type 0 where
    on_chain : (c : ℕ) → IsAbove c → InScope c
    beside :
        (c d : ℕ)
        → InScope c
        → any (nat_beq d) (contexts c).children ≡ true
        → (contexts d).transparent ≡ true
        → InScope d

  abbrev Offers : List ℕ → Type 0
  Offers = All (λ d. (contexts d).transparent ≡ true → InScope d)

  Offers-children : (c : ℕ) → InScope c → Offers (contexts c).children
  Offers-children c here = All-any (contexts c).children λ d child t. beside c d here child t

  collect_transparent_lem :
      (n : ℕ) (cs seen out : List ℕ)
      → Offers cs
      → All InScope out
      → All InScope (collect_transparent contexts n cs (seen, out)).1
  unfolding collect_transparent
  collect_transparent_lem zero cs seen out offers h = h
  collect_transparent_lem (suc n) [] seen out offers h = h
  collect_transparent_lem (suc n) (c ∷ cs) seen out (offer, offers) h =
      elim (Bool-cases (not (contexts c).transparent || any (nat_beq c) seen)) [
        | inl skip ↦ rw (skip, All) (collect_transparent_lem (suc n) cs seen out offers h)
        | inr take ↦
            rw (take, All)
              (let here : InScope c = offer (ground arith) in
                let inner =
                  collect_transparent_lem n (contexts c).children (c ∷ seen) (out ++ c ∷ [])
                    (Offers-children c here) (All-append InScope out (c ∷ []) h (here, tt)) in
                collect_transparent_lem (suc n) cs _ _ offers inner)
      ]

  chain_of_lem :
      (n : ℕ) (c : Option ℕ) (chain : List ℕ)
      → ((x : ℕ) → c ≡ some x → IsAbove x)
      → All InScope chain
      → All InScope (chain_of contexts n c chain)
  unfolding chain_of
  chain_of_lem zero c chain up h = h
  chain_of_lem (suc n) none chain up h = h
  chain_of_lem (suc n) (some c) chain up h =
      chain_of_lem n (contexts c).parent (c ∷ chain) (λ x p. above c x (up c refl) p)
        (on_chain c (up c refl), h)

  collect_chain_lem :
      (n : ℕ) (chain : List ℕ) (st : List ℕ × List ℕ)
      → All InScope chain
      → All InScope st.1
      → All InScope (collect_chain contexts n chain st)
  unfolding collect_chain
  collect_chain_lem n [] st h k = k
  collect_chain_lem n (c ∷ chain) (seen, ordered) (here, h) k =
      collect_chain_lem n chain
        (collect_transparent contexts n (contexts c).children (seen, ordered ++ c ∷ [])) h
        (collect_transparent_lem n (contexts c).children seen (ordered ++ c ∷ [])
          (Offers-children c here) (All-append InScope ordered (c ∷ []) k (here, tt)))

  collect_scope_contexts_lem : (size : ℕ) → All InScope (collect_scope_contexts contexts size leaf)
  collect_scope_contexts_lem size =
      let chain = chain_of contexts size (some leaf) [] in
      collect_chain_lem size chain (chain, [])
        (chain_of_lem size (some leaf) [] (λ x e. own x (is_leaf x e)) tt) tt
    where
      is_leaf : (x : ℕ) → ◌≡◌ {A = Option ℕ} (some leaf) (some x) → x ≡ leaf
      is_leaf x e = cc

  module _ (name : HookName) (P : H → Type 0) where
    add_contexts_lem :
        (cs : List ℕ) (s : ResolvedScope H V)
        → All (λ c. All P (at name (contexts c).hooks)) cs
        → All P (at name s.hooks)
        → All P (at name (add_contexts contexts cs s).hooks)
    unfolding add_contexts
    add_contexts_lem [] s h k = k
    add_contexts_lem (c ∷ cs) s (h, hs) k = add_contexts_lem cs (add_context (contexts c) s) hs (
        rw (at-append_hooks name s.hooks (contexts c).hooks)
          (All-append P (at name s.hooks) (at name (contexts c).hooks) k h))

    -- Each hook of a route is its own or that of a context in scope.
    pub resolved-InScope :
        (size : ℕ) (local : LocalHooks H)
        → ((c : ℕ) → InScope c → All P (at name (contexts c).hooks))
        → All P (at name (local_store local))
        → All P (at name (resolved contexts size leaf local).hooks)
    unfolding resolved
    resolved-InScope size local inside own_hooks =
        let cs = collect_scope_contexts contexts size leaf in
        let s = add_contexts contexts cs create_scope in
        rw (at-append_hooks name s.hooks (local_store local)) (
          All-append P (at name s.hooks) (at name (local_store local))
            (add_contexts_lem cs create_scope (All-imp inside cs (collect_scope_contexts_lem size))
              (at-none name P))
            own_hooks)
