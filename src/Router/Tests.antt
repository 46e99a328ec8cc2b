-- ===== src/Router/Tests.antt =====
-- Runs of packages/core/src/router.ts, and its theorems at concrete routers.
use celsian.Base.{
  ℕ, ◌≡◌, refl, true, false, none, some, List, [], ◌∷◌, Text, codes, text_beq, split_on, split_from,
}
use celsian.Map
use celsian.Router.Types.{RouteMethod, http_get, http_head, http_post, InternalRoute, RouterOptions}
use celsian.Router.Paths.{
  slash, split_path, non_empty, normalize_pathname, ends_with_slash, drop_last, has_double_slash,
  without_dots, strip_trailing, canonicalize_path, join, decode_from, decode_uri_component,
}
use celsian.Router.Tree.{
  segment_kind, get_child, set_child, put_route, add_fixed, add_param, add_wildcard, add_at,
  conflicting_param, find_first_route_url,
}
use celsian.Router.Match.{
  returned, thrown, malformed_uri, match_fixed, match_param, match_wildcard, match_node,
  decode_param, decode_segment, no_params, node_has_path, collect_methods,
}
use celsian.Router.{
  init, add_route, put_static, match_tree, match_route, has_path, allowed_methods, select,
}
use celsian.Router.FastPath.{add_routes, match_route-eq-match_tree}
use celsian.Router.Stored.{shapes, fits, itself, any_one}
use celsian.Router.Soundness.{In, match_route-fits}
use celsian.Router.Reaches.{Reaches, match_node-none}
use celsian.Router.Allowed.{filled, has_path-filled-allowed_methods}
use celsian.Router.Canonical.{IsCanonical, canonicalize_path-IsCanonical}

-- The definitions that a run goes through.
routing : Unit {0}
unfolding split_on split_from non_empty split_path ends_with_slash drop_last has_double_slash
    normalize_pathname without_dots strip_trailing canonicalize_path join decode_from
    decode_uri_component segment_kind get_child set_child put_route add_fixed add_param add_wildcard
    add_at find_first_route_url decode_segment decode_param match_fixed match_param match_wildcard
    match_node node_has_path collect_methods put_static init add_route match_tree match_route
    has_path select allowed_methods add_routes shapes fits Reaches Map.get Map.set Map.has
    Map.delete text_beq
routing = tt

abbrev route : RouteMethod → Text → ℕ → InternalRoute ℕ
route m url handler = record { method = m; url = url; handler = handler }

abbrev options : RouterOptions
options = record { ignore_trailing_slash = none; strict_params = none }

abbrev table : List (InternalRoute ℕ)
table =
    route http_get (codes "/users/:id") 1
    ∷ route http_get (codes "/users/me/") 2
    ∷ route http_post (codes "/users/:id/posts") 3
    ∷ route http_get (codes "/files/*path") 4
    ∷ []

decoding :
    (decode_uri_component (codes "a%2Fb") ≡ some (codes "a/b"))
    × (decode_uri_component (codes "%C3%A9") ≡ some (0xe9 ∷ []))
    × (decode_uri_component (codes "%F0%9F%98%80") ≡ some (0xd83d ∷ 0xde00 ∷ []))
    × (decode_uri_component (codes "%C0%80") ≡ none)
    × (decode_uri_component (codes "%ZZ") ≡ none)
    × (decode_uri_component (codes "%C3x") ≡ none)
unfolding routing
decoding = (refl, refl, refl, refl, refl, refl)

spellings :
    (canonicalize_path (codes "/users/") true ≡ some (codes "/users"))
    × (canonicalize_path (codes "/users/") false ≡ none)
    × (canonicalize_path (codes "//users") true ≡ none)
    × (canonicalize_path (codes "/a/../b") true ≡ none)
    × (canonicalize_path [] true ≡ some slash)
unfolding routing
spellings = (refl, refl, refl, refl, refl)

routed :
    (match_route http_get (codes "/users/me") (add_routes table (init options))
      ≡ returned (some (no_params, route http_get (codes "/users/me/") 2)))
    × (match_route http_get (codes "/files/a/b%20c") (add_routes table (init options))
        ≡ returned (
            some (
              record {
                params = (codes "path", codes "a/b c") ∷ [];
                raw_params = (codes "path", codes "a/b%20c") ∷ [];
              },
              route http_get (codes "/files/*path") 4,
            )))
    × (match_route http_get (codes "/users/%ZZ") (add_routes table (init options))
        ≡ thrown malformed_uri)
    × (match_route http_get (codes "/files") (add_routes table (init options)) ≡ returned none)
    × (allowed_methods (codes "/users/7") (add_routes table (init options))
        ≡ http_get ∷ http_head ∷ [])
    × ((add_route (route http_get (codes "/users/:name") 5) (add_routes table (init options))).1
        ≡ some (
            conflicting_param
              (codes "/users/:name")
              (codes "name")
              (codes "/users/:id")
              (codes "id")))
unfolding routing
routed = (refl, refl, refl, refl, refl, refl)

canonicalize_path-IsCanonical_example : IsCanonical true (codes "/users/") (codes "/users")
unfolding routing
canonicalize_path-IsCanonical_example =
    canonicalize_path-IsCanonical true (codes "/users/") (codes "/users") refl

match_route-eq-match_tree_example :
    match_route http_get (codes "/users/me/") (add_routes table (init options))
    ≡ match_tree http_get (codes "/users/me") (add_routes table (init options))
unfolding routing
match_route-eq-match_tree_example =
    match_route-eq-match_tree options table http_get (codes "/users/me/") (codes "/users/me") refl

match_route-fits_example :
    In (route http_get (codes "/users/me/") 2) table
    × ((http_get ≡ http_get)
        × (fits (shapes (split_path (codes "/users/me/"))) (split_path (codes "/users/me")) ≡ true))
unfolding routing
match_route-fits_example =
    match_route-fits options table http_get (codes "/users/me") (codes "/users/me") no_params
      (route http_get (codes "/users/me/") 2) refl refl

has_path-filled-allowed_methods_example :
    has_path (codes "/users/7") (add_routes table (init options))
    ≡ filled (allowed_methods (codes "/users/7") (add_routes table (init options)))
has_path-filled-allowed_methods_example =
    has_path-filled-allowed_methods options table (codes "/users/7")

match_node-none_example : fits (itself (codes "users") ∷ any_one ∷ []) (codes "files" ∷ []) ≡ false
unfolding routing
match_node-none_example =
    match_node-none false (codes "files" ∷ []) (itself (codes "users") ∷ any_one ∷ [])
      (route http_get (codes "/users/:id") 1) (add_routes table (init options)).root no_params
      no_params refl (refl, refl)
