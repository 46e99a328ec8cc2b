-- ===== src/Encapsulation/Complete.antt =====
-- packages/core/src/context.ts: every context in scope gives its hooks.
use celsian.Base.{
  ◌≡◌, refl, subst, ◌⊎◌, inl, inr, ◌↔◌, ℕ, zero, suc, ◌<◌, true, Option, none, some, List, [], ◌∷◌,
  ◌++◌, All, arith,
}
use celsian.Encapsulation.Types.{HookName, at, LocalHooks, ResolvedScope, create_scope, Context}
use celsian.Encapsulation.Scopes.{
  local_store, add_context, add_contexts, collect_transparent, chain_of, collect_chain,
  collect_scope_contexts, resolved,
}
use celsian.Encapsulation.Visits.{
  Has, Has-self, Has-later, Has-cons, Has-append, Has-last, All-Has, All-from, IsTree, Closed,
  Visited, collect_transparent-Visited,
}
use celsian.Encapsulation.Isolation.{
  IsAbove, own, above, InScope, on_chain, beside, at-append_hooks, resolved-InScope,
}

module _ {A : Type 0} (P : A → Type 0) where
  All-split : (xs ys : List A) → All P (xs ++ ys) → All P xs × All P ys
  All-split [] ys h = (tt, h)
  All-split (x ∷ xs) ys (p, h) = let (hs, k) = All-split xs ys h in ((p, hs), k)

module _ {H V : Type 0} (contexts : ℕ → Context H V) (size : ℕ) (tree : IsTree contexts size) where
  chain_grows :
      (n : ℕ) (c : Option ℕ) (acc : List ℕ) (y : ℕ) → Has y acc → Has y (chain_of contexts n c acc)
  unfolding chain_of
  chain_grows zero c acc y h = h
  chain_grows (suc n) none acc y h = h
  chain_grows (suc n) (some c) acc y h =
      chain_grows n (contexts c).parent (c ∷ acc) y (Has-later y c acc h)

  chain_starts : (n c : ℕ) (acc : List ℕ) → c < n → Has c (chain_of contexts n (some c) acc)
  unfolding chain_of
  chain_starts zero c acc h = absurd (omega arith)
  chain_starts (suc n) c acc h = chain_grows n (contexts c).parent (c ∷ acc) c (Has-self c acc)

  parent_listed :
      (n c p : ℕ) (acc : List ℕ)
      → c < suc n
      → (contexts c).parent ≡ some p
      → Has p (chain_of contexts n (contexts c).parent acc)
  parent_listed n c p acc h e =
      rw e (chain_starts n p acc (omega (arith, tree.parent_before c p e)))

  chain_of-closed :
      (n : ℕ) (c : Option ℕ) (acc : List ℕ)
      → ((x : ℕ) → c ≡ some x → x < n)
      → (y p : ℕ) → Has y (chain_of contexts n c acc)
      → (contexts y).parent ≡ some p
      → Has y acc ⊎ Has p (chain_of contexts n c acc)
  unfolding chain_of
  chain_of-closed zero c acc fuel y p h e = inl h
  chain_of-closed (suc n) none acc fuel y p h e = inl h
  chain_of-closed (suc n) (some c) acc fuel y p h e =
      elim (chain_of-closed n (contexts c).parent (c ∷ acc)
        (λ x up. omega (arith, tree.parent_before c x up, fuel c refl)) y p h e) [
          | inr listed ↦ inr listed
          | inl before ↦ elim (Has-cons y c acc before) [
            | inr earlier ↦ inl earlier
            | inl is ↦ inr (parent_listed n c p (c ∷ acc) (fuel c refl) (rw is at e))
          ]
        ]

  -- What the loop over the chain makes of what is seen and what is listed.
  abbrev Looped : List ℕ → List ℕ × List ℕ → List ℕ → List ℕ → Type 0
  Looped cs st seen listed =
      ((y : ℕ) → Has y st.0 → Has y seen)
      × All (λ c. Closed contexts size c seen × Has c listed) cs
      × ((y : ℕ) → Has y seen → Has y st.0 ⊎ Closed contexts size y seen)
      × ((y : ℕ) → Has y seen → Has y st.0 ⊎ Has y listed)
      × ((y : ℕ) → Has y st.1 → Has y listed)

  abbrev Loops : List ℕ → List ℕ × List ℕ → List ℕ → Type 0
  Loops cs st listed = (seen : List ℕ) × Looped cs st seen listed

  Loops-cons :
      (c : ℕ) (cs seen ordered : List ℕ) (t : List ℕ × List ℕ) (listed : List ℕ)
      → Visited contexts size (contexts c).children (seen, ordered ++ c ∷ []) t
      → Loops cs t listed
      → Loops (c ∷ cs) (seen, ordered) listed
  Loops-cons c cs seen ordered t listed v (final, (keeps, done, closes, lists, keeps_list)) = (
    final,
    (
      λ y h. keeps y (v.keeps y h),
      (
        (
          λ d child clear. keeps d (
              All-Has (λ e. (contexts e).transparent ≡ true → Has e t.0) (contexts c).children d
                v.covers child clear),
          keeps_list c (v.keeps_list c (Has-last c ordered)),
        ),
        done,
      ),
      λ y h. elim (closes y h) [
        | inr closed ↦ inr closed
        | inl before ↦ elim (v.closes y before) [
          | inl first ↦ inl first
          | inr closed ↦ inr (λ d child clear. keeps d (closed d child clear))
        ]
      ],
      λ y h. elim (lists y h) [
        | inr there ↦ inr there
        | inl before ↦ elim (v.lists y before) [
          | inl first ↦ inl first
          | inr there ↦ inr (keeps_list y there)
        ]
      ],
      λ y h. keeps_list y (v.keeps_list y (Has-append y ordered (c ∷ []) h)),
    ),
  )

  collect_chain-Loops :
      (chain : List ℕ) (st : List ℕ × List ℕ)
      → Loops chain st (collect_chain contexts size chain st)
  unfolding collect_chain
  collect_chain-Loops [] (seen, ordered) =
      (seen, (λ y h. h, tt, λ y h. inl h, λ y h. inl h, λ y h. h))
  collect_chain-Loops (c ∷ chain) (seen, ordered) =
      let t = collect_transparent contexts size (contexts c).children (seen, ordered ++ c ∷ []) in
      Loops-cons c chain seen ordered t _
        (collect_transparent-Visited contexts size tree size (contexts c).children seen
          (ordered ++ c ∷ [])
          (All-from (contexts c).children
            λ d child. let (after, within) = tree.child_after c d child in (within, omega arith)))
        (collect_chain-Loops chain t)

  module _ (leaf : ℕ) (within : leaf < size) where
    abbrev chain : List ℕ
    chain = chain_of contexts size (some leaf) []

    IsAbove-chain : (c : ℕ) → IsAbove contexts leaf c → Has c chain
    IsAbove-chain c (own _ e) = rw e (chain_starts size leaf [] within)
    IsAbove-chain p (above c _ h e) =
        elim (chain_of-closed size (some leaf) [] is_within c p (IsAbove-chain c h) e) [
          | inl nowhere ↦ absurd (nothing p nowhere)
          | inr listed ↦ listed
        ]
      where
        is_within : (x : ℕ) → ◌≡◌ {A = Option ℕ} (some leaf) (some x) → x < size
        is_within x e = let same : leaf ≡ x = cc in subst (λ z. z < size) same within

        nothing : (x : ℕ) → Has x [] → ⊥
        nothing x h = cc

    InScope-seen :
        (seen : List ℕ)
        → ((y : ℕ) → Has y chain → Has y seen)
        → ((y : ℕ) → Has y seen → Closed contexts size y seen)
        → (c : ℕ) → InScope contexts leaf c
        → Has c seen
    InScope-seen seen starts closed c (on_chain _ h) = starts c (IsAbove-chain c h)
    InScope-seen seen starts closed d (beside c _ h child clear) =
        closed c (InScope-seen seen starts closed c h) d child clear

    InScope-listed :
        (c : ℕ) → InScope contexts leaf c → Has c (collect_scope_contexts contexts size leaf)
    InScope-listed c h =
        let (seen, (keeps, done, closes, lists, keeps_list)) =
          collect_chain-Loops chain (chain, []) in
        let listed = collect_scope_contexts contexts size leaf in
        let P : ℕ → Type 0 = λ x. Closed contexts size x seen × Has x listed in
        elim (lists c (
          InScope-seen seen keeps
            (λ y there. elim (closes y there) [
              | inl first ↦ (All-Has P chain y done first).0
              | inr closed ↦ closed
            ])
            c h)) [ inl first ↦ (All-Has P chain c done first).1 | inr there ↦ there ]

    module _ (name : HookName) (P : H → Type 0) where
      add_contexts-All :
          (cs : List ℕ) (s : ResolvedScope H V)
          → All P (at name (add_contexts contexts cs s).hooks)
          → All P (at name s.hooks) × All (λ c. All P (at name (contexts c).hooks)) cs
      unfolding add_contexts
      add_contexts-All [] s h = (h, tt)
      add_contexts-All (c ∷ cs) s h =
          let (both, others) = add_contexts-All cs (add_context (contexts c) s) h in
          let (before, here) =
            All-split P (at name s.hooks) (at name (contexts c).hooks)
              (subst (All P) (at-append_hooks name s.hooks (contexts c).hooks) both) in
          (before, (here, others))

      resolved-All :
          (local : LocalHooks H)
          → All P (at name (resolved contexts size leaf local).hooks)
          → ((c : ℕ) → InScope contexts leaf c → All P (at name (contexts c).hooks))
            × All P (at name (local_store local))
      unfolding resolved
      resolved-All local h =
          let cs = collect_scope_contexts contexts size leaf in
          let s = add_contexts contexts cs create_scope in
          let (inherited, own_hooks) =
            All-split P (at name s.hooks) (at name (local_store local))
              (subst (All P) (at-append_hooks name s.hooks (local_store local)) h) in
          (
            λ c inside.
                All-Has (λ x. All P (at name (contexts x).hooks)) cs c
                  (add_contexts-All cs create_scope inherited).1 (InScope-listed c inside),
            own_hooks,
          )

      -- In a tree, the hooks of a route are its own and those of all contexts in scope.
      pub resolved-InScope_iff :
          (local : LocalHooks H)
          → All P (at name (resolved contexts size leaf local).hooks) ↔ (
              ((c : ℕ) → InScope contexts leaf c → All P (at name (contexts c).hooks))
              × All P (at name (local_store local)))
      resolved-InScope_iff local = (
        resolved-All local,
        λ (inside, own_hooks). resolved-InScope contexts leaf name P size local inside own_hooks,
      )
