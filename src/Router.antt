-- ===== src/Router.antt =====
-- packages/core/src/router.ts: the router, which has the tree of routes and a static fast path.
pub mod Types
pub mod Paths
pub mod Tree
pub mod Match
pub mod Fixed
pub mod FastPath
pub mod Stored
pub mod Soundness
mod Tests
pub mod Canonical
pub mod Reaches
pub mod Allowed
use celsian.Base.{
  ℕ, Bool, true, false, not, ◌&&◌, ◌||◌, Option, none, some, List, [], ◌∷◌, ◌++◌, Text, codes,
  nat_beq, length, text_eq, ◌==◌, any, map, if◌then◌else◌, ◌≡◌, ◌⊎◌, refl, inl, inr,
}
use celsian.Map
use celsian.Map.{Map}
use Types.{
  RouteMethod, http_get, http_head, http_post, http_put, http_patch, http_delete, http_options,
  method_eq, InternalRoute, RadixNode, radix_node, Children, leaf, branch, Slot, vacant, taken,
  RouterOptions, Router,
}
use Paths.{split_path, normalize_pathname, canonicalize_path, decode_uri_component, join}
use Tree.{
  is_truthy, RouteError, conflicting_param, duplicate_route, SegmentKind, param_segment,
  wildcard_segment, fixed_segment, segment_kind, is_fixed, all_fixed, create_node, routes,
  get_child, set_child, child_or_new, collect_routes, put_route, add_fixed, add_param, add_wildcard,
  add_at, SegmentKind-cases,
}
use Match.{
  HttpError, Outcome, returned, thrown, ◌>>=◌, Captured, no_params, match_fixed, match_param,
  match_wildcard, match_node, node_has_path, collect_methods, or_next, decode_param, decode_segment,
  release, capture, release_missed,
}

abbrev pub is_true_or_missing : Option Bool → Bool
is_true_or_missing none = true
is_true_or_missing (some b) = b

abbrev pub is_true : Option Bool → Bool
is_true none = false
is_true (some b) = b

-- `HEAD` goes with `GET`.
abbrev pub with_head : List RouteMethod → List RouteMethod
with_head found = if any (λ m. m == http_get) found then http_head ∷ found else found

unfoldable pub select : List RouteMethod → List RouteMethod → List RouteMethod
select [] found = []
select (m ∷ ms) found = if any (λ x. x == m) found then m ∷ select ms found else select ms found

abbrev pub method_order : List RouteMethod
method_order =
    http_get ∷ http_head ∷ http_post ∷ http_put ∷ http_patch ∷ http_delete ∷ http_options ∷ []

module _ {H : Type 0} where
  unfoldable pub init : RouterOptions → Router H
  init options = record {
    root = create_node [];
    static_routes = [];
    ignore_trailing_slash = is_true_or_missing options.ignore_trailing_slash;
    strict_params = is_true options.strict_params;
  }

  abbrev pub methods_or_empty :
      Option (Map RouteMethod (InternalRoute H)) → Map RouteMethod (InternalRoute H)
  methods_or_empty none = []
  methods_or_empty (some m) = m

  -- The fast path's map takes the route.
  unfoldable pub put_static :
      InternalRoute H
      → Map Text (Map RouteMethod (InternalRoute H))
      → Map Text (Map RouteMethod (InternalRoute H))
  put_static route statics =
      let key = normalize_pathname route.url in
      Map.set key (Map.set route.method route (methods_or_empty (Map.get key statics))) statics

  unfoldable pub add_route : InternalRoute H → Router H → Router H × Option RouteError
  add_route route r =
      let segments = split_path route.url in
      let (root, error) = add_at route segments r.root in
      elim error [
        | some e ↦ (record r { root = root }, some e)
        | none ↦ (
          record r {
            root = root;
            static_routes =
                if all_fixed segments then put_static route r.static_routes else r.static_routes;
          },
          none,
        )
      ]

  -- What `match` makes of the node that the walk ends at.
  abbrev pub route_at :
      RouteMethod → Captured × Option (RadixNode H) → Option (Captured × InternalRoute H)
  route_at method (c, none) = none
  route_at method (c, some n) = elim (Map.get method (routes n)) [
    | none ↦ none
    | some route ↦ some (c, route)
  ]

  -- The slow path of `match`.
  unfoldable pub match_tree :
      RouteMethod → Text → Router H → Outcome (Option (Captured × InternalRoute H))
  match_tree method canonical r =
      match_node r.strict_params method (split_path canonical) r.root no_params >>= λ found.
      returned (route_at method found)

  abbrev pub static_route : RouteMethod → Text → Router H → Option (InternalRoute H)
  static_route method canonical r =
      Map.get method (methods_or_empty (Map.get canonical r.static_routes))

  -- `match`
  unfoldable pub match_route :
      RouteMethod → Text → Router H → Outcome (Option (Captured × InternalRoute H))
  match_route method pathname r = elim (canonicalize_path pathname r.ignore_trailing_slash) [
    | none ↦ returned none
    | some canonical ↦ elim (static_route method canonical r) [
      | some route ↦ returned (some (no_params, route))
      | none ↦ match_tree method canonical r
    ]
  ]

  unfoldable pub has_path : Text → Router H → Bool
  has_path pathname r = elim (canonicalize_path pathname r.ignore_trailing_slash) [
    | none ↦ false
    | some canonical ↦
        Map.has canonical r.static_routes || node_has_path (split_path canonical) r.root
  ]

  unfoldable pub allowed_methods : Text → Router H → List RouteMethod
  allowed_methods pathname r = elim (canonicalize_path pathname r.ignore_trailing_slash) [
    | none ↦ []
    | some canonical ↦ select method_order (
        with_head (
          Map.keys (methods_or_empty (Map.get canonical r.static_routes))
          ++ collect_methods (split_path canonical) r.root))
  ]

  abbrev pub get_all_routes : Router H → List (InternalRoute H)
  get_all_routes r = collect_routes r.root
