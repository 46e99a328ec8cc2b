-- ===== src/Router/Stored.antt =====
-- Which routes a tree holds, and under which patterns.
use celsian.Base.{
  ◌≡◌, refl, sym, subst, inl, inr, Bool, true, false, Option, some, List, [], ◌∷◌, Text, All,
  text_eq, text_beq_iff, ◌==◌, Bool-cases, Option-cases, if◌then◌else◌,
}
use celsian.Map
use celsian.Map.{Map}
use celsian.Map.Laws.{All-set}
use celsian.Router.Types.{
  method_eq, InternalRoute, RadixNode, radix_node, Children, leaf, branch, Slot, vacant, taken,
}
use celsian.Router.Tree.{
  segment_kind, param_segment, wildcard_segment, fixed_segment, create_node, get_child, set_child,
  child_or_new, put_route, add_fixed, add_param, add_wildcard, add_at, SegmentKind-cases,
  RouteError,
}

-- What a segment of a pattern stands for: itself, any one segment, or all the rest.
pub data Shape : Type 0 where
  itself : Text → Shape
  any_one : Shape
  any_rest : Shape

-- The shapes of the segments of a url, as far as the first wildcard.
unfoldable pub shapes : List Text → List Shape
shapes [] = []
shapes (seg ∷ segs) =
    let rest = shapes segs in
    elim (segment_kind seg) [
      | fixed_segment ↦ itself seg ∷ rest
      | param_segment name ↦ any_one ∷ rest
      | wildcard_segment name ↦ any_rest ∷ []
    ]

-- Whether a pattern fits the segments of a path; a wildcard takes one segment at least.
unfoldable pub fits : List Shape → List Text → Bool
fits [] [] = true
fits (itself k ∷ ps) (seg ∷ segs) = let rest = fits ps segs in if k == seg then rest else false
fits (any_one ∷ ps) (seg ∷ segs) = fits ps segs
fits (any_rest ∷ ps) (seg ∷ segs) = true
fits _ _ = false

-- Every route of a tree satisfies a predicate together with the pattern that leads to it, and stands
-- under its own method.
unfoldable mutual
  pub Stored : {H : Type 0} → RadixNode H → (List Shape → InternalRoute H → Type 0) → Type 0
  Stored (radix_node s cs p w rs) P =
      All (λ e. (e.1.method ≡ e.0) × P [] e.1) rs
      × (StoredChildren cs P × (StoredSlot any_one p P × StoredSlot any_rest w P))

  pub StoredChildren : {H : Type 0} → Children H → (List Shape → InternalRoute H → Type 0) → Type 0
  StoredChildren leaf P = Unit
  StoredChildren (branch k n cs) P = Stored n (λ ps r. P (itself k ∷ ps) r) × StoredChildren cs P

  pub StoredSlot : {H : Type 0} → Shape → Slot H → (List Shape → InternalRoute H → Type 0) → Type 0
  StoredSlot shape vacant P = Unit
  StoredSlot shape (taken name n) P = Stored n (λ ps r. P (shape ∷ ps) r)

module _ {H : Type 0} where
  create_node-Stored :
      (seg : Text) (P : List Shape → InternalRoute H → Type 0) → Stored (create_node seg) P
  unfolding Stored
  create_node-Stored seg P = (tt, (tt, (tt, tt)))

  pub get_child-Stored :
      (P : List Shape → InternalRoute H → Type 0) (k : Text) (cs : Children H) (n : RadixNode H)
      → StoredChildren cs P
      → get_child k cs ≡ some n
      → Stored n (λ ps r. P (itself k ∷ ps) r)
  unfolding Stored get_child
  get_child-Stored P k leaf n h e = cc
  get_child-Stored P k (branch j o cs) n h e = elim (Bool-cases (j == k)) [
    | inl same ↦
        subst (λ x. Stored x (λ ps r. P (itself k ∷ ps) r)) (found (rw same at e))
          (subst (λ x. Stored o (λ ps r. P (itself x ∷ ps) r)) ((text_beq_iff j k).0 same) h.0)
    | inr other ↦ get_child-Stored P k cs n h.1 (rw other at e)
  ]
    where
      found : some o ≡ some n → o ≡ n
      found e = cc

  set_child-Stored :
      (P : List Shape → InternalRoute H → Type 0) (k : Text) (n : RadixNode H) (cs : Children H)
      → StoredChildren cs P
      → Stored n (λ ps r. P (itself k ∷ ps) r)
      → StoredChildren (set_child k n cs) P
  unfolding Stored set_child
  set_child-Stored P k n leaf h s = (s, tt)
  set_child-Stored P k n (branch j o cs) h s = elim (Bool-cases (j == k)) [
    | inl same ↦ rw same (
      subst (λ x. Stored n (λ ps r. P (itself x ∷ ps) r)) (sym ((text_beq_iff j k).0 same)) s,
      h.1,
    )
    | inr other ↦ rw other (h.0, set_child-Stored P k n cs h.1 s)
  ]

  child_or_new-Stored :
      (P : List Shape → InternalRoute H → Type 0) (k : Text) (cs : Children H)
      → StoredChildren cs P
      → Stored (child_or_new k (get_child k cs)) (λ ps r. P (itself k ∷ ps) r)
  child_or_new-Stored P k cs h = elim (Option-cases (get_child k cs)) [
    | inl e ↦ rw e (create_node-Stored k (λ ps r. P (itself k ∷ ps) r))
    | inr (n, e) ↦ rw e (get_child-Stored P k cs n h e)
  ]

  put_route-Stored :
      (P : List Shape → InternalRoute H → Type 0) (route : InternalRoute H) (n : RadixNode H)
      → Stored n P
      → P [] route
      → Stored (put_route route n).0 P
  unfolding Stored put_route
  put_route-Stored P route (radix_node s cs p w rs) (here, below) new =
      elim (Option-cases (Map.get route.method rs)) [
        | inr (old, e) ↦ rw (e, put_route) (here, below)
        | inl e ↦ rw (e, put_route) (All-set _ route.method route rs (refl, new) here, below)
      ]

  add_fixed-Stored :
      (P : List Shape → InternalRoute H → Type 0)
      (next : RadixNode H → RadixNode H × Option RouteError) (seg : Text) (n : RadixNode H)
      → Stored n P
      → ((o : RadixNode H)
          → Stored o (λ ps r. P (itself seg ∷ ps) r)
          → Stored (next o).0 (λ ps r. P (itself seg ∷ ps) r))
      → Stored (add_fixed next seg n).0 P
  unfolding Stored add_fixed
  add_fixed-Stored P next seg (radix_node s cs p w rs) (here, (cs', below)) step =
      (here, (set_child-Stored P seg _ cs cs' (step _ (child_or_new-Stored P seg cs cs')), below))

  add_param-Stored :
      (P : List Shape → InternalRoute H → Type 0)
      (next : RadixNode H → RadixNode H × Option RouteError) (route : InternalRoute H)
      (seg name : Text) (n : RadixNode H)
      → Stored n P
      → ((o : RadixNode H)
          → Stored o (λ ps r. P (any_one ∷ ps) r)
          → Stored (next o).0 (λ ps r. P (any_one ∷ ps) r))
      → Stored (add_param next route seg name n).0 P
  unfolding Stored add_param
  add_param-Stored P next route seg name (radix_node s cs vacant w rs) (here, (cs', (p', w')))
        step =
      (here, (cs', (step _ (create_node-Stored seg (λ ps r. P (any_one ∷ ps) r)), w')))
  add_param-Stored P next route seg name (radix_node s cs (taken current n) w rs)
        (here, (cs', (p', w'))) step =
      elim (Bool-cases (current == name)) [
        | inl same ↦ rw same (here, (cs', (step n p', w')))
        | inr other ↦ rw other (here, (cs', (p', w')))
      ]

  add_wildcard-Stored :
      (P : List Shape → InternalRoute H → Type 0) (route : InternalRoute H) (seg name : Text)
      (n : RadixNode H)
      → Stored n P
      → P (any_rest ∷ []) route
      → Stored (add_wildcard route seg name n).0 P
  unfolding Stored add_wildcard
  add_wildcard-Stored P route seg name (radix_node s cs p vacant rs) (here, (cs', (p', w'))) new = (
    here,
    (
      cs',
      (
        p',
        put_route-Stored (λ ps r. P (any_rest ∷ ps) r) route (create_node seg)
            (create_node-Stored seg (λ ps r. P (any_rest ∷ ps) r)) new,
      ),
    ),
  )
  add_wildcard-Stored P route seg name (radix_node s cs p (taken current n) rs)
        (here, (cs', (p', w'))) new =
      (here, (cs', (p', put_route-Stored (λ ps r. P (any_rest ∷ ps) r) route n w' new)))

  -- A route that is added, also where the addition throws, stands under the shapes of its segments.
  pub add_at-Stored :
      (P : List Shape → InternalRoute H → Type 0) (route : InternalRoute H) (segs : List Text)
      (n : RadixNode H)
      → Stored n P
      → P (shapes segs) route
      → Stored (add_at route segs n).0 P
  unfolding add_at shapes
  add_at-Stored P route [] n h new = put_route-Stored P route n h new
  add_at-Stored P route (seg ∷ segs) n h new = elim (SegmentKind-cases (segment_kind seg)) [
    | inl e ↦
        rw (e, add_at)
          (add_fixed-Stored P (add_at route segs) seg n h (λ o s.
            add_at-Stored (λ ps r. P (itself seg ∷ ps) r) route segs o s (rw (e, shapes) at new)))
    | inr (inl (name, e)) ↦
        rw (e, add_at)
          (add_param-Stored P (add_at route segs) route seg name n h (λ o s.
            add_at-Stored (λ ps r. P (any_one ∷ ps) r) route segs o s (rw (e, shapes) at new)))
    | inr (inr (name, e)) ↦
        rw (e, add_at) (add_wildcard-Stored P route seg name n h (rw (e, shapes) at new))
  ]
