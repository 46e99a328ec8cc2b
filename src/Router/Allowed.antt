-- ===== src/Router/Allowed.antt =====
-- `hasPath` and `allowedMethods`, which decide between a 404 and a 405.
use celsian.Base.{
  ◌≡◌, ◌∙◌, refl, sym, ap, subst, inl, inr, Bool, true, false, not, ◌||◌, List, [], ◌∷◌, ◌++◌, Text,
  arith, nat_beq, length, text_eq, ◌==◌, ==_refl, any, All, Bool-cases, Option-cases,
}
use celsian.Map
use celsian.Map.{Map}
use celsian.Map.Laws.{All-get, All-set, has_found, has_missing}
use celsian.Router.Types.{
  RouteMethod, http_get, http_head, http_post, http_put, http_patch, http_delete, http_options,
  method_eq, InternalRoute, RadixNode, radix_node, vacant, taken, RouterOptions, Router,
}
use celsian.Router.Paths.{split_path, canonicalize_path}
use celsian.Router.Tree.{routes, get_child, all_fixed, add_at}
use celsian.Router.Match.{node_has_path, collect_methods}
use celsian.Router.{
  init, add_route, put_static, methods_or_empty, has_path, allowed_methods, select, with_head,
  method_order,
}
use celsian.Router.FastPath.{add_routes}

-- Whether a list has an element.
abbrev pub filled {ℓ} : {A : Type ℓ} → List A → Bool
filled [] = false
filled (x ∷ xs) = true

filled-append {ℓ} : {A : Type ℓ} (xs ys : List A) → filled (xs ++ ys) ≡ filled xs || filled ys
filled-append [] ys = refl
filled-append (x ∷ xs) ys = refl

filled-keys : {K V : Type 0} (m : Map K V) → not (nat_beq (length m) 0) ≡ filled (Map.keys m)
filled-keys [] = refl
filled-keys (e ∷ m) = ground arith

filled-with_head : (found : List RouteMethod) → filled (with_head found) ≡ filled found
filled-with_head [] = refl
filled-with_head (m ∷ ms) = elim (Bool-cases (any (λ x. x == http_get) (m ∷ ms))) [
  | inl e ↦ rw e refl
  | inr e ↦ rw e refl
]

in_method_order : (m : RouteMethod) → any (λ x. x == m) method_order ≡ true
in_method_order http_get = refl
in_method_order http_head = refl
in_method_order http_post = refl
in_method_order http_put = refl
in_method_order http_patch = refl
in_method_order http_delete = refl
in_method_order http_options = refl

contradiction : {b : Bool} → b ≡ true → b ≡ false → ⊥
contradiction e f = cc

filled-select_found :
    (order found : List RouteMethod) (m : RouteMethod)
    → any (λ x. x == m) order ≡ true
    → any (λ x. x == m) found ≡ true
    → filled (select order found) ≡ true
unfolding select
filled-select_found [] found m o f = cc
filled-select_found (k ∷ ks) found m o f = elim (Bool-cases (any (λ x. x == k) found)) [
  | inl e ↦ rw e refl
  | inr e ↦ elim (Bool-cases (k == m)) [
    | inr other ↦ rw e (filled-select_found ks found m (rw other at o) f)
    | inl same ↦ absurd (
        contradiction f
          (subst (λ y. any (λ x. x == y) found ≡ false) ((method_eq.beq_iff k m).0 same) e))
  ]
]

filled-select_nothing : (order : List RouteMethod) → filled (select order []) ≡ false
unfolding select
filled-select_nothing [] = refl
filled-select_nothing (k ∷ ks) = filled-select_nothing ks

filled-select : (found : List RouteMethod) → filled (select method_order found) ≡ filled found
filled-select [] = filled-select_nothing method_order
filled-select (m ∷ ms) =
    filled-select_found method_order (m ∷ ms) m (in_method_order m) (rw (==_refl m) refl)

module _ {H : Type 0} where
  -- The walk of `hasPath` succeeds where that of `allowedMethods` collects something.
  node_has_path-filled :
      (segs : List Text) (n : RadixNode H) → node_has_path segs n ≡ filled (collect_methods segs n)
  unfolding node_has_path collect_methods
  node_has_path-filled [] n = filled-keys (routes n)
  node_has_path-filled (seg ∷ segs) (radix_node s cs vacant w rs) =
      elim (Option-cases (get_child seg cs)) [
        | inl e ↦ rw (e, node_has_path) refl
        | inr (child, e) ↦
            rw (e, node_has_path)
              (rw filled-append (ap (λ b. b || false) (node_has_path-filled segs child)))
      ]
  node_has_path-filled (seg ∷ segs) (radix_node s cs (taken name n) w rs) =
      elim (Option-cases (get_child seg cs)) [
        | inl e ↦ rw (e, node_has_path) (node_has_path-filled segs n)
        | inr (child, e) ↦
            rw (e, node_has_path)
              (rw filled-append (
                ap (λ b. b || node_has_path segs n) (node_has_path-filled segs child)
                ∙ ap (λ b. filled (collect_methods segs child) || b) (node_has_path-filled segs n)))
      ]

  -- No key of the fast path stands for an empty map.
  abbrev AllFilled : Map Text (Map RouteMethod (InternalRoute H)) → Type 0
  AllFilled m = All (λ e. filled (Map.keys e.1) ≡ true) m

  filled-keys-set :
      (k : RouteMethod) (v : InternalRoute H) (m : Map RouteMethod (InternalRoute H))
      → filled (Map.keys (Map.set k v m)) ≡ true
  unfolding Map.set
  filled-keys-set k v [] = refl
  filled-keys-set k v ((j, w) ∷ m) = elim (Bool-cases (j == k)) [
    | inl e ↦ rw e refl
    | inr e ↦ rw e refl
  ]

  add_route-AllFilled :
      (route : InternalRoute H) (r : Router H)
      → AllFilled r.static_routes
      → AllFilled (add_route route r).0.static_routes
  unfolding add_route put_static
  add_route-AllFilled route r h =
      elim (Option-cases (add_at route (split_path route.url) r.root).1) [
        | inr (error, e) ↦ rw (e, add_route) h
        | inl e ↦ elim (Bool-cases (all_fixed (split_path route.url))) [
          | inr moving ↦ rw (e, add_route) (rw moving h)
          | inl fixed ↦
              rw (e, add_route)
                (rw fixed (
                  All-set (λ e. filled (Map.keys e.1) ≡ true) _ _ r.static_routes
                    (filled-keys-set route.method route _) h))
        ]
      ]

  add_routes-AllFilled :
      (rs : List (InternalRoute H)) (r : Router H)
      → AllFilled r.static_routes
      → AllFilled (add_routes rs r).static_routes
  unfolding add_routes
  add_routes-AllFilled [] r h = h
  add_routes-AllFilled (route ∷ rest) r h =
      add_routes-AllFilled rest (add_route route r).0 (add_route-AllFilled route r h)

  has-filled :
      (key : Text) (statics : Map Text (Map RouteMethod (InternalRoute H)))
      → AllFilled statics
      → Map.has key statics ≡ filled (Map.keys (methods_or_empty (Map.get key statics)))
  has-filled key statics h = elim (Option-cases (Map.get key statics)) [
    | inl e ↦ rw e (has_missing key statics e)
    | inr (m, e) ↦ rw e (
        has_found key m statics e
        ∙ sym (All-get (λ e. filled (Map.keys e.1) ≡ true) key m statics e h))
  ]

  -- In every router that `addRoute` builds, `hasPath` is true of a path exactly when the methods for
  -- the `Allow` header are not empty.
  pub has_path-filled-allowed_methods :
      (o : RouterOptions) (rs : List (InternalRoute H)) (pathname : Text)
      → has_path pathname (add_routes rs (init o))
        ≡ filled (allowed_methods pathname (add_routes rs (init o)))
  unfolding has_path allowed_methods
  has_path-filled-allowed_methods o rs pathname =
      let r = add_routes rs (init o) in
      elim (Option-cases (canonicalize_path pathname r.ignore_trailing_slash)) [
        | inl e ↦ rw (e, has_path) (rw (e, allowed_methods) refl)
        | inr (canonical, e) ↦
            rw (e, has_path)
              (rw (e, allowed_methods)
                (rw filled-select (
                  rw filled-with_head (
                    rw filled-append (
                      ap (λ b. b || node_has_path (split_path canonical) r.root)
                        (has-filled canonical r.static_routes
                          (add_routes-AllFilled rs (init o) (unfold init in tt)))
                      ∙ ap
                          (λ b.
                            filled (Map.keys (methods_or_empty (Map.get canonical r.static_routes)))
                            || b)
                          (node_has_path-filled (split_path canonical) r.root))))))
      ]
