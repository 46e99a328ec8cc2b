-- ===== src/Router/Fixed.antt =====
-- Where fixed segments lead in the tree, as routes are added and as `matchNode` walks.
use celsian.Base.{
  ◌≡◌, refl, sym, subst, inl, inr, Bool, true, false, Option, none, some, List, [], ◌∷◌, Text,
  arith, text_beq_iff, text_eq, ◌==◌, ==_refl, Bool-cases, Option-cases, if◌then◌else◌,
}
use celsian.Map
use celsian.Map.{Map}
use celsian.Map.Laws.{get-set, has_found}
use celsian.Router.Types.{
  RouteMethod, method_eq, InternalRoute, RadixNode, radix_node, Children, leaf, branch, Slot,
  vacant, taken,
}
use celsian.Router.Tree.{
  RouteError, segment_kind, all_fixed, routes, get_child, set_child, child_or_new, put_route,
  add_fixed, add_param, add_wildcard, add_at, SegmentKind-cases,
}
use celsian.Router.Match.{returned, Captured, match_fixed, match_node}

refused : {e : RouteError} → ◌≡◌ {A = Option RouteError} (some e) none → ⊥
refused h = cc

not_fixed : ◌≡◌ {A = Bool} false true → ⊥
not_fixed h = cc

module _ {H : Type 0} where
  pub clash : {o : Option (InternalRoute H)} {r : InternalRoute H} → o ≡ none → o ≡ some r → ⊥
  clash n s = cc

  abbrev at_child :
      (RadixNode H → Map RouteMethod (InternalRoute H))
      → Option (RadixNode H)
      → Map RouteMethod (InternalRoute H)
  at_child next none = []
  at_child next (some n) = next n

  -- The routes of the node that fixed segments lead to.
  pub routes_at : List Text → RadixNode H → Map RouteMethod (InternalRoute H)
  routes_at [] n = routes n
  routes_at (seg ∷ segs) (radix_node s cs p w rs) = at_child (routes_at segs) (get_child seg cs)

  pub get_child-set_child :
      (j k : Text) (n : RadixNode H) (cs : Children H)
      → get_child j (set_child k n cs) ≡ (if k == j then some n else get_child j cs)
  unfolding get_child set_child
  get_child-set_child j k n leaf = refl
  get_child-set_child j k n (branch i o cs) =
      ground
        (arith, text_beq_iff k j, text_beq_iff i k, text_beq_iff i j, get_child-set_child j k n cs)

  match_step :
      (strict : Bool) (m : RouteMethod) (c : Captured) (seg : Text) (cs : Children H)
      (segs : List Text) (child n' : RadixNode H)
      → get_child seg cs ≡ some child
      → match_node strict m segs child c ≡ returned (c, some n')
      → match_fixed (match_node strict m segs) seg cs c ≡ returned (c, some n')
  unfolding match_fixed
  match_step strict m c seg cs segs child n' e found = rw (e, match_fixed) found

  -- The walk goes where fixed segments lead, if the method has a route there.
  pub match_node-routes_at :
      (strict : Bool) (m : RouteMethod) (segs : List Text) (n : RadixNode H) (c : Captured)
      (route : InternalRoute H)
      → Map.get m (routes_at segs n) ≡ some route
      → (n' : RadixNode H) × (match_node strict m segs n c ≡ returned (c, some n'))
        × (Map.get m (routes n') ≡ some route)
  unfolding match_node routes_at
  match_node-routes_at strict m [] n c route h = (n, rw (has_found m route (routes n) h) refl, h)
  match_node-routes_at strict m (seg ∷ segs) (radix_node s cs p w rs) c route h =
      elim (Option-cases (get_child seg cs)) [
        | inl e ↦ absurd (clash {o = Map.get m []} (unfold Map.get in refl) (rw e at h))
        | inr (child, e) ↦
            let (n', found, has) = match_node-routes_at strict m segs child c route (rw e at h) in
            (n', rw (match_step strict m c seg cs segs child n' e found) refl, has)
      ]

  put_route-keeps :
      (route : InternalRoute H) (m : RouteMethod) (path : List Text) (n : RadixNode H)
      (r : InternalRoute H)
      → Map.get m (routes_at path n) ≡ some r
      → Map.get m (routes_at path (put_route route n).0) ≡ some r
  unfolding put_route routes_at
  put_route-keeps route m (q ∷ qs) (radix_node s cs p w rs) r h =
      elim (Option-cases (Map.get route.method rs)) [
        | inr (old, e) ↦ rw (e, put_route) h
        | inl e ↦ rw (e, put_route) h
      ]
  put_route-keeps route m [] (radix_node s cs p w rs) r h =
      elim (Option-cases (Map.get route.method rs)) [
        | inr (old, e) ↦ rw (e, put_route) h
        | inl e ↦
            rw (e, put_route)
              (rw get-set (elim (Bool-cases (route.method == m)) [
                | inl same ↦ absurd (
                    clash
                      (subst (λ x. Map.get x rs ≡ none) ((method_eq.beq_iff route.method m).0 same)
                        e)
                      h)
                | inr other ↦ rw other h
              ]))
      ]

  add_param-routes_at :
      (next : RadixNode H → RadixNode H × Option RouteError) (route : InternalRoute H)
      (seg name : Text) (path : List Text) (n : RadixNode H)
      → routes_at path (add_param next route seg name n).0 ≡ routes_at path n
  unfolding add_param routes_at
  add_param-routes_at next route seg name [] (radix_node s cs vacant w rs) = refl
  add_param-routes_at next route seg name (q ∷ qs) (radix_node s cs vacant w rs) = refl
  add_param-routes_at next route seg name path (radix_node s cs (taken current n) w rs) =
      elim (Bool-cases (current == name)) [
        | inl e ↦ rw e (same _ _ path)
        | inr e ↦ rw e (same _ _ path)
      ]
    where
      same :
          (p p' : Slot H) (path : List Text)
          → routes_at path (radix_node s cs p w rs) ≡ routes_at path (radix_node s cs p' w rs)
      same p p' [] = refl
      same p p' (q ∷ qs) = refl

  add_wildcard-routes_at :
      (route : InternalRoute H) (seg name : Text) (path : List Text) (n : RadixNode H)
      → routes_at path (add_wildcard route seg name n).0 ≡ routes_at path n
  unfolding add_wildcard routes_at
  add_wildcard-routes_at route seg name [] (radix_node s cs p vacant rs) = refl
  add_wildcard-routes_at route seg name (q ∷ qs) (radix_node s cs p vacant rs) = refl
  add_wildcard-routes_at route seg name [] (radix_node s cs p (taken current n) rs) = refl
  add_wildcard-routes_at route seg name (q ∷ qs) (radix_node s cs p (taken current n) rs) = refl

  add_fixed-keeps :
      (next : RadixNode H → RadixNode H × Option RouteError) (m : RouteMethod) (r : InternalRoute H)
      (seg : Text) (path : List Text) (n : RadixNode H)
      → ((qs : List Text) (n : RadixNode H)
          → Map.get m (routes_at qs n) ≡ some r
          → Map.get m (routes_at qs (next n).0) ≡ some r)
      → Map.get m (routes_at path n) ≡ some r
      → Map.get m (routes_at path (add_fixed next seg n).0) ≡ some r
  unfolding add_fixed routes_at
  add_fixed-keeps next m r seg [] (radix_node s cs p w rs) keeps h = h
  add_fixed-keeps next m r seg (q ∷ qs) (radix_node s cs p w rs) keeps h =
      rw (get_child-set_child q seg) (elim (Bool-cases (seg == q)) [
        | inr other ↦ rw other h
        | inl same ↦
            let h' : Map.get m (at_child (routes_at qs) (get_child seg cs)) ≡ some r =
              subst (λ x. Map.get m (at_child (routes_at qs) (get_child x cs)) ≡ some r)
                (sym ((text_beq_iff seg q).0 same)) h in
            rw same (elim (Option-cases (get_child seg cs)) [
              | inl e ↦ absurd (clash {o = Map.get m []} (unfold Map.get in refl) (rw e at h'))
              | inr (old, e) ↦ rw e (keeps qs old (rw e at h'))
            ])
      ])

  -- Adding a route takes no route away.
  pub add_at-keeps :
      (route : InternalRoute H) (m : RouteMethod) (segs path : List Text) (n : RadixNode H)
      (r : InternalRoute H)
      → Map.get m (routes_at path n) ≡ some r
      → Map.get m (routes_at path (add_at route segs n).0) ≡ some r
  unfolding add_at routes_at
  add_at-keeps route m [] path n r h = put_route-keeps route m path n r h
  add_at-keeps route m (seg ∷ segs) path n r h = elim (SegmentKind-cases (segment_kind seg)) [
    | inl e ↦
        rw (e, add_at)
          (add_fixed-keeps (add_at route segs) m r seg path n
            (λ qs n. add_at-keeps route m segs qs n r) h)
    | inr (inl (name, e)) ↦ rw (e, add_at) (rw add_param-routes_at h)
    | inr (inr (name, e)) ↦ rw (e, add_at) (rw add_wildcard-routes_at h)
  ]

  -- A fixed path leads to the route that was added under it.
  pub routes_at-add_at :
      (route : InternalRoute H) (segs : List Text) (n : RadixNode H)
      → all_fixed segs ≡ true
      → (add_at route segs n).1 ≡ none
      → Map.get route.method (routes_at segs (add_at route segs n).0) ≡ some route
  unfolding add_at routes_at put_route add_fixed
  routes_at-add_at route [] (radix_node s cs p w rs) f ok =
      elim (Option-cases (Map.get route.method rs)) [
        | inr (old, e) ↦ absurd (refused (rw (e, put_route) at ok))
        | inl e ↦ rw (e, put_route) (rw get-set (rw ==_refl refl))
      ]
  routes_at-add_at route (seg ∷ segs) (radix_node s cs p w rs) f ok =
      elim (SegmentKind-cases (segment_kind seg)) [
        | inl e ↦
            rw (e, add_at)
              (rw (get_child-set_child seg seg) (
                rw ==_refl (
                  routes_at-add_at route segs (child_or_new seg (get_child seg cs)) (rw e at f)
                    (rw (e, add_at) at ok))))
        | inr (inl (name, e)) ↦ absurd (not_fixed (rw e at f))
        | inr (inr (name, e)) ↦ absurd (not_fixed (rw e at f))
      ]
  -- What the fast path's map holds after a write.
