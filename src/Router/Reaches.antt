-- ===== src/Router/Reaches.antt =====
-- `matchNode` of packages/core/src/router.ts when it finds nothing, and the routes that stand in
-- the tree.
use celsian.Base.{
  ◌≡◌, refl, subst, inl, inr, Bool, true, false, Option, none, some, List, [], ◌∷◌, Text, text_eq,
  text_beq_iff, ◌==◌, Bool-cases, Option-cases,
}
use celsian.Map
use celsian.Map.{Map}
use celsian.Map.Laws.{has_found}
use celsian.Router.Types.{
  RouteMethod, method_eq, InternalRoute, RadixNode, radix_node, Children, Slot, vacant, taken,
}
use celsian.Router.Paths.{join}
use celsian.Router.Tree.{routes, get_child, is_truthy}
use celsian.Router.Match.{
  Outcome, returned, thrown, ◌>>=◌, Captured, match_fixed, match_param, match_wildcard, match_node,
  or_next, decode_param, decode_segment, release_missed, capture,
}
use celsian.Router.Soundness.{bind-cases}
use celsian.Router.Stored.{Shape, itself, any_one, any_rest, fits}

module _ {H : Type 0} where
  -- A slot with a name, whose node satisfies a predicate.
  abbrev SlotHas : Slot H → (RadixNode H → Type 0) → Type 0
  SlotHas vacant P = ⊥
  SlotHas (taken name n) P = (is_truthy name ≡ true) × P n

  abbrev ChildHas : Option (RadixNode H) → (RadixNode H → Type 0) → Type 0
  ChildHas none P = ⊥
  ChildHas (some n) P = P n

  abbrev Holds : InternalRoute H → RadixNode H → Type 0
  Holds r n = Map.get r.method (routes n) ≡ some r

  -- A route stands in a tree under a pattern, with named parameters along the way.
  unfoldable pub Reaches : List Shape → InternalRoute H → RadixNode H → Type 0
  Reaches [] r n = Holds r n
  Reaches (itself k ∷ ps) r (radix_node s cs p w rs) = ChildHas (get_child k cs) (Reaches ps r)
  Reaches (any_one ∷ ps) r (radix_node s cs p w rs) = SlotHas p (Reaches ps r)
  Reaches (any_rest ∷ ps) r (radix_node s cs p w rs) = SlotHas w (Holds r)

  unkept :
      (name : Text) (x : Outcome (Captured × Option (RadixNode H))) (c' : Captured)
      → (x >>= λ found. returned (release_missed name found)) ≡ returned (c', none)
      → (d : Captured) × (x ≡ returned (d, none))
  unkept name (thrown e) c' h = cc
  unkept name (returned (c, some m)) c' h = cc
  unkept name (returned (c, none)) c' h = (c, refl)

  or_next-none :
      (x : Outcome (Captured × Option (RadixNode H)))
      (f : Captured → Outcome (Captured × Option (RadixNode H))) (c' : Captured)
      → or_next x f ≡ returned (c', none)
      → (c : Captured) × (x ≡ returned (c, none)) × (f c ≡ returned (c', none))
  or_next-none (thrown e) f c' h = cc
  or_next-none (returned (c, some m)) f c' h = cc
  or_next-none (returned (c, none)) f c' h = (c, refl, h)

  seen :
      {c c' : Captured} {n : RadixNode H}
      → ◌≡◌ {A = Outcome (Captured × Option (RadixNode H))}
          (returned (c, some n))
          (returned (c', none))
      → ⊥
  seen h = cc

  no_child :
      (cs : Children H) (P : RadixNode H → Type 0) {k seg : Text}
      → k ≡ seg
      → get_child seg cs ≡ none
      → ChildHas (get_child k cs) P
      → ⊥
  no_child cs P same e g = rw e at (subst (λ x. ChildHas (get_child x cs) P) same g)

  the_child :
      (cs : Children H) (P : RadixNode H → Type 0) {k seg : Text} {n : RadixNode H}
      → k ≡ seg
      → get_child seg cs ≡ some n
      → ChildHas (get_child k cs) P
      → P n
  the_child cs P same e g = rw e at (subst (λ x. ChildHas (get_child x cs) P) same g)

  match_param-none :
      (strict : Bool) (next : RadixNode H → Captured → Outcome (Captured × Option (RadixNode H)))
      (seg : Text) (name : Text) (n : RadixNode H) (c c' : Captured)
      → is_truthy name ≡ true
      → match_param strict next seg (taken name n) c ≡ returned (c', none)
      → (d : Captured) × ((d' : Captured) × (next n d ≡ returned (d', none)))
  unfolding match_param
  match_param-none strict next seg name n c c' named h =
      let (value, decoded, tried) =
        bind-cases (decode_param strict seg) _ (c', none) (rw named at h) in
      (capture name value seg c, unkept name _ c' tried)

  match_wildcard-none :
      (segs : List Text) (m : RouteMethod) (name : Text) (n : RadixNode H) (c c' : Captured)
      → is_truthy name ≡ true
      → Map.has m (routes n) ≡ true
      → match_wildcard segs m (taken name n) c ≡ returned (c', none)
      → ⊥
  unfolding match_wildcard
  match_wildcard-none segs m name n c c' named has h =
      let (value, decoded, tried) =
        bind-cases (decode_segment (join segs)) _ (c', none) (rw has at (rw named at h)) in
      seen tried

  slot-cases :
      (p : Slot H) (P : RadixNode H → Type 0)
      → SlotHas p P
      → (name : Text) × (n : RadixNode H) × (p ≡ taken name n) × (is_truthy name ≡ true) × P n
  slot-cases vacant P h = absurd h
  slot-cases (taken name n) P (named, h) = (name, n, refl, named, h)

  -- When `matchNode` returns nothing (and throws nothing) for the segments of a path, the pattern
  -- of no route of that method in the tree fits them. A pattern's parameters and its wildcard have
  -- names that are not empty.
  pub match_node-none :
      (strict : Bool) (segs : List Text) (ps : List Shape) (r : InternalRoute H) (n : RadixNode H)
      (c c' : Captured)
      → match_node strict r.method segs n c ≡ returned (c', none)
      → Reaches ps r n
      → fits ps segs ≡ false
  unfolding match_node fits Reaches
  match_node-none strict [] [] r n c c' h g =
      absurd (seen (rw (has_found r.method r (routes n) g) at h))
  match_node-none strict [] (itself k ∷ ps) r n c c' h g = refl
  match_node-none strict [] (any_one ∷ ps) r n c c' h g = refl
  match_node-none strict [] (any_rest ∷ ps) r n c c' h g = refl
  match_node-none strict (seg ∷ segs) [] r n c c' h g = refl
  match_node-none strict (seg ∷ segs) (itself k ∷ ps) r (radix_node s cs p w rs) c c' h g =
      elim (Bool-cases (k == seg)) [
        | inr other ↦ rw other refl
        | inl same ↦
            let (d, first, rest) =
              or_next-none
                (or_next (match_fixed (match_node strict r.method segs) seg cs c)
                  (match_param strict (match_node strict r.method segs) seg p))
                (match_wildcard (seg ∷ segs) r.method w) c' h in
            let (d', fixed, param) =
              or_next-none (match_fixed (match_node strict r.method segs) seg cs c)
                (match_param strict (match_node strict r.method segs) seg p) d first in
            rw same (elim (Option-cases (get_child seg cs)) [
              | inl e ↦ absurd (no_child cs (Reaches ps r) ((text_beq_iff k seg).0 same) e g)
              | inr (child, e) ↦
                  match_node-none strict segs ps r child c d'
                    (unfold match_fixed in rw (e, match_fixed) at fixed)
                    (the_child cs (Reaches ps r) ((text_beq_iff k seg).0 same) e g)
            ])
      ]
  match_node-none strict (seg ∷ segs) (any_one ∷ ps) r (radix_node s cs p w rs) c c' h g =
      let (d, first, rest) =
        or_next-none
          (or_next (match_fixed (match_node strict r.method segs) seg cs c)
            (match_param strict (match_node strict r.method segs) seg p))
          (match_wildcard (seg ∷ segs) r.method w) c' h in
      let (d', fixed, param) =
        or_next-none (match_fixed (match_node strict r.method segs) seg cs c)
          (match_param strict (match_node strict r.method segs) seg p) d first in
      let (name, n, at_slot, named, below) = slot-cases p (Reaches ps r) g in
      let (e, (e', walked)) =
        match_param-none strict (match_node strict r.method segs) seg name n d' d named (
          subst
            (λ x.
              match_param strict (match_node strict r.method segs) seg x d' ≡ returned (d, none))
            at_slot param) in
      match_node-none strict segs ps r n e e' walked below
  match_node-none strict (seg ∷ segs) (any_rest ∷ ps) r (radix_node s cs p w rs) c c' h g =
      let (d, first, rest) =
        or_next-none
          (or_next (match_fixed (match_node strict r.method segs) seg cs c)
            (match_param strict (match_node strict r.method segs) seg p))
          (match_wildcard (seg ∷ segs) r.method w) c' h in
      let (name, n, at_slot, named, below) = slot-cases w (Holds r) g in
      absurd (
        match_wildcard-none (seg ∷ segs) r.method name n d c' named
          (has_found r.method r (routes n) below)
          (subst (λ x. match_wildcard (seg ∷ segs) r.method x d ≡ returned (c', none)) at_slot
            rest))
