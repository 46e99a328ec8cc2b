-- ===== src/Encapsulation/Forgotten.antt =====
-- packages/core/src/context.ts: resolution does not read what `decorate` changes.
use celsian.Base.{
  ◌≡◌, refl, sym, ap, ◌∙◌, fun_ext, inl, inr, ℕ, zero, suc, not, ◌||◌, Option, none, some, List, [],
  ◌∷◌, ◌++◌, text_eq, nat_beq, any, Bool-cases, arith,
}
use celsian.Encapsulation.Types.{LocalHooks, ResolvedScope, create_scope, Context}
use celsian.Encapsulation.Scopes.{
  add_context, add_contexts, collect_transparent, chain_of, collect_chain, collect_scope_contexts,
  resolved,
}
use celsian.Encapsulation.Contexts.{write}

-- A context without its own decorations, which no route sees.
abbrev pub forget : {H V : Type 0} → Context H V → Context H V
forget c = record c { decorations = [] }

module _ {H V : Type 0} (contexts : ℕ → Context H V) where
  abbrev forgotten : ℕ → Context H V
  forgotten i = forget (contexts i)

  collect_transparent-forgotten :
      (n : ℕ) (cs : List ℕ) (st : List ℕ × List ℕ)
      → collect_transparent forgotten n cs st ≡ collect_transparent contexts n cs st
  unfolding collect_transparent
  collect_transparent-forgotten zero cs st = refl
  collect_transparent-forgotten (suc n) [] st = refl
  collect_transparent-forgotten (suc n) (c ∷ cs) (seen, out) =
      elim (Bool-cases (not (contexts c).transparent || any (nat_beq c) seen)) [
        | inl skip ↦ rw skip (collect_transparent-forgotten (suc n) cs (seen, out))
        | inr take ↦
            rw
              (
                take,
                collect_transparent-forgotten n (contexts c).children (c ∷ seen, out ++ c ∷ []),
              )
              (collect_transparent-forgotten (suc n) cs
                (collect_transparent contexts n (contexts c).children (c ∷ seen, out ++ c ∷ [])))
      ]

  chain_of-forgotten :
      (n : ℕ) (c : Option ℕ) (chain : List ℕ)
      → chain_of forgotten n c chain ≡ chain_of contexts n c chain
  unfolding chain_of
  chain_of-forgotten zero c chain = refl
  chain_of-forgotten (suc n) none chain = refl
  chain_of-forgotten (suc n) (some c) chain = chain_of-forgotten n (contexts c).parent (c ∷ chain)

  collect_chain-forgotten :
      (n : ℕ) (chain : List ℕ) (st : List ℕ × List ℕ)
      → collect_chain forgotten n chain st ≡ collect_chain contexts n chain st
  unfolding collect_chain
  collect_chain-forgotten n [] st = refl
  collect_chain-forgotten n (c ∷ chain) (seen, ordered) =
      rw (collect_transparent-forgotten n (contexts c).children (seen, ordered ++ c ∷ [])) (
        collect_chain-forgotten n chain
          (collect_transparent contexts n (contexts c).children (seen, ordered ++ c ∷ [])))

  add_contexts-forgotten :
      (cs : List ℕ) (s : ResolvedScope H V)
      → add_contexts forgotten cs s ≡ add_contexts contexts cs s
  unfolding add_contexts
  add_contexts-forgotten [] s = refl
  add_contexts-forgotten (c ∷ cs) s = add_contexts-forgotten cs (add_context (contexts c) s)

  resolved-forgotten :
      (size leaf : ℕ) (local : LocalHooks H)
      → resolved forgotten size leaf local ≡ resolved contexts size leaf local
  unfolding resolved
  resolved-forgotten size leaf local =
      let chain = chain_of contexts size (some leaf) [] in
      rw
        (
          chain_of-forgotten size (some leaf) [],
          collect_chain-forgotten size chain (chain, []),
          add_contexts-forgotten (collect_scope_contexts contexts size leaf) create_scope,
        )
        refl

  forget-write :
      (c : ℕ) (new : Context H V)
      → forget new ≡ forget (contexts c)
      → (λ i. forget (write c new contexts i)) ≡ forgotten
  forget-write c new e = fun_ext λ i. elim (Bool-cases (nat_beq i c)) [
    | inl is ↦ rw (is, e) (ap (λ j. forget (contexts j)) (sym (ground arith)))
    | inr other ↦ rw other refl
  ]

module _ {H V : Type 0} where
  pub resolved-write :
      (contexts : ℕ → Context H V) (c : ℕ) (new : Context H V)
      → forget new ≡ forget (contexts c)
      → (size leaf : ℕ) (local : LocalHooks H)
      → resolved (write c new contexts) size leaf local ≡ resolved contexts size leaf local
  resolved-write contexts c new e size leaf local =
      sym (resolved-forgotten (write c new contexts) size leaf local)
      ∙ ap (λ k. resolved k size leaf local) (forget-write contexts c new e)
      ∙ resolved-forgotten contexts size leaf local
