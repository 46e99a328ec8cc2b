-- ===== src/Router/Soundness.antt =====
-- What `match` finds was added, and its url fits the path.
use celsian.Base.{
  ◌≡◌, ◌∙◌, ◌⊎◌, refl, sym, subst, ap, inl, inr, Bool, true, ◌&&◌, Option, none, some, List, [],
  ◌∷◌, Text, All, text_eq, ==_refl, Bool-cases, Option-cases,
}
use celsian.Map
use celsian.Map.{Map}
use celsian.Map.Laws.{All-get}
use celsian.Router.Types.{
  RouteMethod, method_eq, InternalRoute, RadixNode, radix_node, Children, Slot, vacant, taken,
  RouterOptions, Router,
}
use celsian.Router.Paths.{split_path, canonicalize_path, join}
use celsian.Router.Tree.{routes, get_child, add_at, is_truthy}
use celsian.Router.Match.{
  Outcome, returned, thrown, ◌>>=◌, Captured, no_params, match_fixed, match_param, match_wildcard,
  match_node, or_next, decode_param, decode_segment, release_missed, capture,
}
use celsian.Router.{init, add_route, match_tree, match_route, route_at}
use celsian.Router.FastPath.{add_routes, match_route-eq-match_tree}
use celsian.Router.Stored.{
  Shape, itself, any_one, any_rest, shapes, fits, Stored, StoredChildren, StoredSlot,
  get_child-Stored, add_at-Stored,
}

pub bind-cases :
    {A B : Type 0} (o : Outcome A) (f : A → Outcome B) (b : B)
    → (o >>= f) ≡ returned b
    → (a : A) × (o ≡ returned a) × (f a ≡ returned b)
bind-cases (returned a) f b h = (a, refl, h)
bind-cases (thrown e) f b h = cc

unwrapped : {A : Type 0} {a b : A} → ◌≡◌ {A = Outcome A} (returned a) (returned b) → a ≡ b
unwrapped h = cc

module _ {H : Type 0} where
  missed :
      {c c' : Captured} {n : RadixNode H}
      → ◌≡◌ {A = Outcome (Captured × Option (RadixNode H))}
          (returned (c, none))
          (returned (c', some n))
      → ⊥
  missed h = cc

  same_node :
      {c c' : Captured} {n n' : RadixNode H}
      → ◌≡◌ {A = Outcome (Captured × Option (RadixNode H))}
          (returned (c, some n))
          (returned (c', some n'))
      → n ≡ n'
  same_node h = cc

  kept :
      (name : Text) (x : Outcome (Captured × Option (RadixNode H))) (c' : Captured)
      (n : RadixNode H)
      → (x >>= λ found. returned (release_missed name found)) ≡ returned (c', some n)
      → x ≡ returned (c', some n)
  kept name (thrown e) c' n h = h
  kept name (returned (c, some m)) c' n h = h
  kept name (returned (c, none)) c' n h = absurd (missed h)

  or_next-cases :
      (x : Outcome (Captured × Option (RadixNode H)))
      (f : Captured → Outcome (Captured × Option (RadixNode H))) (c' : Captured) (n : RadixNode H)
      → or_next x f ≡ returned (c', some n)
      → (x ≡ returned (c', some n)) ⊎ ((c : Captured) × (f c ≡ returned (c', some n)))
  or_next-cases (thrown e) f c' n h = inl h
  or_next-cases (returned (c, some m)) f c' n h = inl h
  or_next-cases (returned (c, none)) f c' n h = inr (c, h)

  match_fixed-cases :
      (next : RadixNode H → Captured → Outcome (Captured × Option (RadixNode H))) (seg : Text)
      (cs : Children H) (c c' : Captured) (n : RadixNode H)
      → match_fixed next seg cs c ≡ returned (c', some n)
      → (child : RadixNode H) × (get_child seg cs ≡ some child)
        × (next child c ≡ returned (c', some n))
  unfolding match_fixed
  match_fixed-cases next seg cs c c' n h = elim (Option-cases (get_child seg cs)) [
    | inl e ↦ absurd (missed (rw (e, match_fixed) at h))
    | inr (child, e) ↦ (child, e, rw (e, match_fixed) at h)
  ]

  match_param-cases :
      (strict : Bool) (next : RadixNode H → Captured → Outcome (Captured × Option (RadixNode H)))
      (seg : Text) (p : Slot H) (c c' : Captured) (n : RadixNode H)
      → match_param strict next seg p c ≡ returned (c', some n)
      → (name : Text) × (child : RadixNode H) × (p ≡ taken name child)
        × ((d : Captured) × (next child d ≡ returned (c', some n)))
  unfolding match_param
  match_param-cases strict next seg vacant c c' n h = absurd (missed h)
  match_param-cases strict next seg (taken name child) c c' n h =
      elim (Bool-cases (is_truthy name)) [
        | inr e ↦ absurd (missed (rw e at h))
        | inl e ↦
            let (value, decoded, tried) =
              bind-cases (decode_param strict seg) _ (c', some n) (rw e at h) in
            (name, child, refl, (capture name value seg c, kept name _ c' n tried))
      ]

  match_wildcard-cases :
      (segs : List Text) (m : RouteMethod) (w : Slot H) (c c' : Captured) (n : RadixNode H)
      → match_wildcard segs m w c ≡ returned (c', some n)
      → (name : Text) × (w ≡ taken name n)
  unfolding match_wildcard
  match_wildcard-cases segs m vacant c c' n h = absurd (missed h)
  match_wildcard-cases segs m (taken name child) c c' n h =
      elim (Bool-cases (is_truthy name && Map.has m (routes child))) [
        | inr e ↦ absurd (missed (rw e at h))
        | inl e ↦
            let (value, decoded, ends) =
              bind-cases (decode_segment (join segs)) _ (c', some n) (rw e at h) in
            (name, ap (λ x. taken name x) (same_node ends))
      ]

  stored :
      (P : List Shape → InternalRoute H → Type 0) (s : Text) (cs : Children H) (p w : Slot H)
      (rs : Map RouteMethod (InternalRoute H))
      → Stored (radix_node s cs p w rs) P
      → All (λ e. (e.1.method ≡ e.0) × P [] e.1) rs
        × (StoredChildren cs P × (StoredSlot any_one p P × StoredSlot any_rest w P))
  stored P s cs p w rs h = unfold Stored in h

  in_slot :
      (P : List Shape → InternalRoute H → Type 0) (shape : Shape) (p : Slot H) (name : Text)
      (n : RadixNode H)
      → StoredSlot shape p P
      → p ≡ taken name n
      → Stored n (λ ps r. P (shape ∷ ps) r)
  in_slot P shape p name n h e = unfold Stored in subst (λ x. StoredSlot shape x P) e h

  at_end :
      (P : List Shape → InternalRoute H → Type 0) (m : RouteMethod) (n : RadixNode H)
      (r : InternalRoute H)
      → Stored n P
      → Map.get m (routes n) ≡ some r
      → (r.method ≡ m) × P [] r
  at_end P m (radix_node s cs p w rs) r h g =
      All-get (λ e. (e.1.method ≡ e.0) × P [] e.1) m r rs g (stored P s cs p w rs h).0

  -- What the walk ends at is stored under a pattern that fits the path.
  match_node-Stored :
      (P : List Shape → InternalRoute H → Type 0) (strict : Bool) (m : RouteMethod)
      (segs : List Text) (n : RadixNode H) (c c' : Captured) (n' : RadixNode H)
      (r : InternalRoute H)
      → Stored n P
      → match_node strict m segs n c ≡ returned (c', some n')
      → Map.get m (routes n') ≡ some r
      → (r.method ≡ m) × ((ps : List Shape) × P ps r × (fits ps segs ≡ true))
  unfolding match_node fits
  match_node-Stored P strict m [] (radix_node t cs p w rs) c c' n' r s h g =
      elim (Bool-cases (Map.has m rs)) [
        | inr e ↦ absurd (missed (rw e at h))
        | inl e ↦
            let same = same_node (rw e at h) in
            let (method, holds) =
              at_end P m (radix_node t cs p w rs) r s
                (subst (λ x. Map.get m (routes x) ≡ some r) (sym same) g) in
            (method, ([], holds, refl))
      ]
  match_node-Stored P strict m (seg ∷ segs) (radix_node t cs p w rs) c c' n' r s h g =
      let (here, (cs', (p', w'))) = stored P t cs p w rs s in
      elim (or_next-cases
        (or_next (match_fixed (match_node strict m segs) seg cs c)
          (match_param strict (match_node strict m segs) seg p))
        (match_wildcard (seg ∷ segs) m w) c' n' h) [
          | inr (d, e) ↦
              let (name, at_rest) = match_wildcard-cases (seg ∷ segs) m w d c' n' e in
              let (method, holds) =
                at_end (λ ps r. P (any_rest ∷ ps) r) m n' r
                  (in_slot P any_rest w name n' w' at_rest) g in
              (method, (any_rest ∷ [], holds, refl))
          | inl first ↦
              elim (or_next-cases (match_fixed (match_node strict m segs) seg cs c)
                (match_param strict (match_node strict m segs) seg p) c' n' first) [
                  | inl e ↦
                      let (child, at_child, walked) =
                        match_fixed-cases (match_node strict m segs) seg cs c c' n' e in
                      let (method, (ps, holds, good)) =
                        match_node-Stored (λ ps r. P (itself seg ∷ ps) r) strict m segs child c c'
                          n' r (get_child-Stored P seg cs child cs' at_child) walked g in
                      (method, (itself seg ∷ ps, holds, rw ==_refl good))
                  | inr (d, e) ↦
                      let (name, child, at_param, (d', walked)) =
                        match_param-cases strict (match_node strict m segs) seg p d c' n' e in
                      let (method, (ps, holds, good)) =
                        match_node-Stored (λ ps r. P (any_one ∷ ps) r) strict m segs child d' c' n'
                          r (in_slot P any_one p name child p' at_param) walked g in
                      (method, (any_one ∷ ps, holds, good))
                ]
        ]

  -- Being one of the routes of a list.
  abbrev pub In : InternalRoute H → List (InternalRoute H) → Type 0
  In r [] = ⊥
  In r (x ∷ xs) = (x ≡ r) ⊎ In r xs

  In-later :
      (x : InternalRoute H) (xs ys : List (InternalRoute H))
      → All (λ r. In r xs) ys
      → All (λ r. In r (x ∷ xs)) ys
  In-later x xs [] h = tt
  In-later x xs (y ∷ ys) (here, h) = (inr here, In-later x xs ys h)

  In-self : (xs : List (InternalRoute H)) → All (λ r. In r xs) xs
  In-self [] = tt
  In-self (x ∷ xs) = (inl refl, In-later x xs xs (In-self xs))

  -- A route of a list, under the pattern of its url.
  abbrev Registered : List (InternalRoute H) → List Shape → InternalRoute H → Type 0
  Registered rs ps r = (ps ≡ shapes (split_path r.url)) × In r rs

  add_route-Stored :
      (P : List Shape → InternalRoute H → Type 0) (route : InternalRoute H) (r : Router H)
      → Stored r.root P
      → P (shapes (split_path route.url)) route
      → Stored (add_route route r).0.root P
  unfolding add_route
  add_route-Stored P route r s new =
      let added = add_at-Stored P route (split_path route.url) r.root s new in
      elim (Option-cases (add_at route (split_path route.url) r.root).1) [
        | inr (error, e) ↦ rw (e, add_route) added
        | inl e ↦ rw (e, add_route) added
      ]

  add_routes-Stored :
      (all rs : List (InternalRoute H)) (r : Router H)
      → All (λ x. In x all) rs
      → Stored r.root (Registered all)
      → Stored (add_routes rs r).root (Registered all)
  unfolding add_routes
  add_routes-Stored all [] r h s = s
  add_routes-Stored all (route ∷ rest) r (here, h) s =
      add_routes-Stored all rest (add_route route r).0 h
        (add_route-Stored (Registered all) route r s (refl, here))

  new-Stored :
      (all : List (InternalRoute H)) (o : RouterOptions)
      → Stored (init {H = H} o).root (Registered all)
  unfolding Stored init
  new-Stored all o = (tt, (tt, (tt, tt)))

  route_at-cases :
      (m : RouteMethod) (found : Captured × Option (RadixNode H)) (c : Captured)
      (route : InternalRoute H)
      → route_at m found ≡ some (c, route)
      → (n : RadixNode H) × (found ≡ (c, some n)) × (Map.get m (routes n) ≡ some route)
  route_at-cases m (d, none) c route h = cc
  route_at-cases m (d, some n) c route h = elim (Option-cases (Map.get m (routes n))) [
    | inl e ↦ absurd (nothing (rw (e, route_at) at h))
    | inr (x, e) ↦
        let same = parts (rw (e, route_at) at h) in
        (n, ap (λ d. (d, some n)) same.0, e ∙ ap (λ x. some x) same.1)
  ]
    where
      nothing : ◌≡◌ {A = Option (Captured × InternalRoute H)} none (some (c, route)) → ⊥
      nothing h = cc

      parts :
          {x : InternalRoute H}
          → ◌≡◌ {A = Option (Captured × InternalRoute H)} (some (d, x)) (some (c, route))
          → (d ≡ c) × (x ≡ route)
      parts h = (cc, cc)

  tree_walk :
      (r : Router H) (m : RouteMethod) (canonical : Text) (c : Captured) (route : InternalRoute H)
      → match_tree m canonical r ≡ returned (some (c, route))
      → (found : Captured × Option (RadixNode H)) × (match_node r.strict_params m
            (split_path canonical)
            r.root
            no_params
          ≡ returned found)
        × (route_at m found ≡ some (c, route))
  unfolding match_tree
  tree_walk r m canonical c route h =
      let (found, walked, ends) = bind-cases _ _ (some (c, route)) h in
      (found, walked, unwrapped ends)

  -- A route that `match` returns is one of those that were added, it has the method asked for, and
  -- its url fits the requested path: its fixed segments are those of the path, and its parameters
  -- take one segment each, up to a wildcard, which takes one or more.
  pub match_route-fits :
      (o : RouterOptions) (rs : List (InternalRoute H)) (m : RouteMethod)
      (pathname canonical : Text) (c : Captured) (route : InternalRoute H)
      → canonicalize_path pathname (add_routes rs (init o)).ignore_trailing_slash ≡ some canonical
      → match_route m pathname (add_routes rs (init o)) ≡ returned (some (c, route))
      → In route rs
        × ((route.method ≡ m)
            × (fits (shapes (split_path route.url)) (split_path canonical) ≡ true))
  match_route-fits o rs m pathname canonical c route can h =
      let r = add_routes rs (init o) in
      let (found, walked, ends) =
        tree_walk r m canonical c route
          (sym (match_route-eq-match_tree o rs m pathname canonical can) ∙ h) in
      let (n, at_node, has) = route_at-cases m found c route ends in
      let (method, (ps, (shaped, listed), good)) =
        match_node-Stored (Registered rs) r.strict_params m (split_path canonical) r.root no_params
          c n route (add_routes-Stored rs rs (init o) (In-self rs) (new-Stored rs o))
          (walked ∙ ap (λ x. returned x) at_node) has in
      (listed, (method, subst (λ s. fits s (split_path canonical) ≡ true) shaped good))
