-- ===== src/Router/FastPath.antt =====
-- The fast path of `match` against the walk of the tree.
use celsian.Base.{
  ◌≡◌, refl, sym, ap, ◌∙◌, subst, inl, inr, Bool, true, ◌&&◌, none, some, List, [], ◌∷◌, ◌++◌, Text,
  arith, nat_beq, text_beq, text_beq_iff, text_eq, ◌==◌, split_from, split_on, Bool-cases,
  Option-cases, if◌then◌else◌,
}
use celsian.Map
use celsian.Map.{Map}
use celsian.Map.Laws.{get-set}
use celsian.Router.Types.{RouteMethod, method_eq, InternalRoute, RouterOptions, Router}
use celsian.Router.Paths.{
  slash, split_path, non_empty, normalize_pathname, ends_with_slash, drop_last, canonicalize_path,
}
use celsian.Router.Tree.{all_fixed, add_at}
use celsian.Router.Match.{no_params}
use celsian.Router.{
  init, methods_or_empty, put_static, add_route, match_tree, static_route, match_route, route_at,
}
use celsian.Router.Fixed.{clash, routes_at, match_node-routes_at, add_at-keeps, routes_at-add_at}

-- A slash at the end of a path makes no segment.
non_empty_split_drop_last :
    (cur s : Text)
    → ends_with_slash s ≡ true
    → non_empty (split_from b'/' cur (drop_last s)) ≡ non_empty (split_from b'/' cur s)
unfolding ends_with_slash drop_last split_from non_empty
non_empty_split_drop_last [] [] h = refl
non_empty_split_drop_last (x ∷ cur) [] h = refl
non_empty_split_drop_last [] (c ∷ []) h = rw h
non_empty_split_drop_last (x ∷ cur) (c ∷ []) h = rw h
non_empty_split_drop_last [] (c ∷ d ∷ s) h = elim (Bool-cases (nat_beq c b'/')) [
  | inl e ↦ rw e (non_empty_split_drop_last [] (d ∷ s) h)
  | inr e ↦ rw e (non_empty_split_drop_last (c ∷ []) (d ∷ s) h)
]
non_empty_split_drop_last (x ∷ cur) (c ∷ d ∷ s) h = elim (Bool-cases (nat_beq c b'/')) [
  | inl e ↦ rw e (ap (λ ps. (x ∷ cur) ∷ ps) (non_empty_split_drop_last [] (d ∷ s) h))
  | inr e ↦ rw e (non_empty_split_drop_last (x ∷ cur ++ c ∷ []) (d ∷ s) h)
]

split_path-normalize_pathname : (u : Text) → split_path (normalize_pathname u) ≡ split_path u
unfolding split_path normalize_pathname non_empty
split_path-normalize_pathname u = elim (Bool-cases (text_beq u slash)) [
  | inl e ↦ rw ((text_beq_iff u slash).0 e) (unfold split_on split_from text_beq in refl)
  | inr e ↦ elim (Bool-cases (text_beq u [])) [
    | inl n ↦ rw ((text_beq_iff u []).0 n) (unfold split_on split_from text_beq in refl)
    | inr n ↦ elim (Bool-cases (ends_with_slash u)) [
      | inl s ↦ rw (e, n) (rw s (unfold split_on in non_empty_split_drop_last [] u s))
      | inr s ↦ rw (e, n) (rw s refl)
    ]
  ]
]

both : (a b : Bool) → a && b ≡ true → (a ≡ true) × (b ≡ true)
both a b h = ground arith

module _ {H : Type 0} where
  get-put_static :
      (route : InternalRoute H) (m : RouteMethod) (key : Text)
      (statics : Map Text (Map RouteMethod (InternalRoute H)))
      → Map.get m (methods_or_empty (Map.get key (put_static route statics))) ≡ (
          if (normalize_pathname route.url == key) && (route.method == m)
          then some route
          else Map.get m (methods_or_empty (Map.get key statics)))
  unfolding put_static
  get-put_static route m key statics =
      rw get-set (elim (Bool-cases (normalize_pathname route.url == key)) [
        | inr other ↦ rw other refl
        | inl same ↦
            rw same
              (rw get-set (rw ((text_beq_iff (normalize_pathname route.url) key).0 same) refl))
      ])

  -- What the fast path finds stands in the tree too.
  IsMirrored : Router H → Type 0
  IsMirrored r =
      (m : RouteMethod) (key : Text) (route : InternalRoute H)
      → static_route m key r ≡ some route
      → Map.get m (routes_at (split_path key) r.root) ≡ some route

  add_route-IsMirrored :
      (route : InternalRoute H) (r : Router H) → IsMirrored r → IsMirrored (add_route route r).0
  unfolding IsMirrored add_route
  add_route-IsMirrored route r i m key found h =
      elim (Option-cases (add_at route (split_path route.url) r.root).1) [
        | inr (error, e) ↦ rw (e, add_route) (kept (i m key found (rw (e, add_route) at h)))
        | inl e ↦ elim (Bool-cases (all_fixed (split_path route.url))) [
          | inr moving ↦
              rw (e, add_route) (kept (i m key found (rw moving at (rw (e, add_route) at h))))
          | inl fixed ↦
              rw (e, add_route)
                (placed e fixed (rw get-put_static at (rw fixed at (rw (e, add_route) at h))))
        ]
      ]
    where
      kept :
          Map.get m (routes_at (split_path key) r.root) ≡ some found
          → Map.get m (routes_at (split_path key) (add_at route (split_path route.url) r.root).0)
            ≡ some found
      kept = add_at-keeps route m (split_path route.url) (split_path key) r.root found

      placed :
          (add_at route (split_path route.url) r.root).1 ≡ none
          → all_fixed (split_path route.url) ≡ true
          → (if (normalize_pathname route.url == key) && (route.method == m)
              then some route
              else static_route m key r)
            ≡ some found
          → Map.get m (routes_at (split_path key) (add_at route (split_path route.url) r.root).0)
            ≡ some found
      placed e fixed h =
          elim (Bool-cases ((normalize_pathname route.url == key) && (route.method == m))) [
            | inr other ↦ kept (i m key found (rw other at h))
            | inl same ↦
                let (at_key, at_method) = both _ _ same in
                let path : split_path route.url ≡ split_path key =
                  sym (split_path-normalize_pathname route.url)
                  ∙ ap split_path ((text_beq_iff (normalize_pathname route.url) key).0 at_key) in
                let written : some route ≡ some found = rw same at h in
                subst
                  (λ ps.
                    Map.get m (routes_at ps (add_at route (split_path route.url) r.root).0)
                    ≡ some found)
                  path
                  (subst
                    (λ x.
                      Map.get x (
                        routes_at (split_path route.url)
                          (add_at route (split_path route.url) r.root).0)
                      ≡ some found)
                    ((method_eq.beq_iff route.method m).0 at_method)
                    (routes_at-add_at route (split_path route.url) r.root fixed e ∙ written))
          ]

  unfoldable pub add_routes : List (InternalRoute H) → Router H → Router H
  add_routes [] r = r
  add_routes (route ∷ rest) r = add_routes rest (add_route route r).0

  new-IsMirrored : (o : RouterOptions) (r : Router H) → r ≡ init o → IsMirrored r
  unfolding IsMirrored init Map.get
  new-IsMirrored o r e m key route h = absurd (clash {r = route} refl (rw e at h))

  add_routes-IsMirrored :
      (rs : List (InternalRoute H)) (r : Router H) → IsMirrored r → IsMirrored (add_routes rs r)
  unfolding add_routes
  add_routes-IsMirrored [] r i = i
  add_routes-IsMirrored (route ∷ rest) r i =
      add_routes-IsMirrored rest (add_route route r).0 (add_route-IsMirrored route r i)

  -- Whatever routes are added to a new router, those whose addition throws included, `match` returns
  -- what the walk of the tree does: the fast path changes no route and no parameter.
  pub match_route-eq-match_tree :
      (o : RouterOptions) (rs : List (InternalRoute H)) (m : RouteMethod)
      (pathname canonical : Text)
      → canonicalize_path pathname (add_routes rs (init o)).ignore_trailing_slash ≡ some canonical
      → match_route m pathname (add_routes rs (init o))
        ≡ match_tree m canonical (add_routes rs (init o))
  unfolding match_route match_tree
  match_route-eq-match_tree o rs m pathname canonical h =
      let r = add_routes rs (init o) in
      rw (h, match_route)
        (elim (Option-cases (static_route m canonical r)) [
          | inl e ↦ rw (e, match_route) refl
          | inr (route, e) ↦
              let (n, walked, has) =
                match_node-routes_at r.strict_params m (split_path canonical) r.root no_params route
                  (unfold IsMirrored in
                    add_routes-IsMirrored rs (init o) (new-IsMirrored o (init o) refl) m canonical
                      route e) in
              rw (e, match_route) (rw walked (rw (has, route_at) refl))
        ])
