-- ===== src/Edge/Service.antt =====
-- packages/edge-router/src/router.ts: the fetch handler, with its routes and its cache as a state. A
-- throw is `none`. The URL parser and the fetch of a backend are parameters.
pub mod Transparency
use celsian.Base.{
  ℕ, Bool, true, false, ◌&&◌, Option, none, some, List, [], ◌∷◌, ◌++◌, map, Text, codes, text_eq,
  ◌==◌, length, if◌then◌else◌,
}
use celsian.Map
use celsian.Map.{Map}
use celsian.Edge.Matching.{RouteEntry, CompiledRoute, RouteMatch, compile_routes, match_route}
use celsian.Edge.RouteCache
use celsian.Edge.RouteCache.{RouteCache}
use celsian.Edge.Cors.{CorsConfig, cors_headers, preflight_headers}
use celsian.Edge.Proxy.{
  Url, Request, ProxyRequest, Proxied, throws, forbidden, forward, header_set, set_all,
  proxy_request,
}
use celsian.Edge.Updates.{
  UpdateBody, UpdateError, Checked, ok, error, handle_update_routes, error_status,
}

pub data Body : Type 0 where
  empty : Body
  health : (route_count : ℕ) → Body
  updated : (route_count : ℕ) → Body
  refused : UpdateError → Body
  listing : List (Text × List Text × Text) → Body
  not_found : (path : Text) → Body
  internal_origin : Body
  backend : Text → Body

pub record Response : Type 0 where
  pub status : ℕ
  pub headers : Map Text Text
  pub body : Body

pub record EdgeRouter : Type 0 where
  pub routes : List CompiledRoute
  pub match_cache : RouteCache (Option RouteMatch)

unfoldable pub create_edge_router : List RouteEntry → EdgeRouter
create_edge_router entries = record {
  routes = compile_routes entries;
  match_cache = RouteCache.empty;
}

abbrev pub reply : ℕ → Body → Response
reply status body = record { status = status; headers = []; body = body }

abbrev pub header : Text → Request → Option Text
header name request = Map.get name request.headers

abbrev pub or_empty : Option Text → Text
or_empty none = []
or_empty (some s) = s

-- What `routes` is after an update, with the cache of the old ones dropped.
unfoldable pub apply_update : Checked (List CompiledRoute) → EdgeRouter → EdgeRouter × Response
apply_update (error e) r = (r, reply (error_status e) (refused e))
apply_update (ok table) r = (
  record { routes = table; match_cache = RouteCache.clear r.match_cache },
  reply 200 (updated (length table)),
)

abbrev pub listed_route : CompiledRoute → Text × List Text × Text
listed_route r = (r.entry.pattern, r.methods, r.entry.origin)

abbrev pub cache_key : Request → Text
cache_key request = request.method ++ codes ":" ++ request.url.pathname

-- The match, from the cache if it is there; a throw of the matcher leaves the cache alone.
unfoldable pub cached_match : Request → EdgeRouter → Option (EdgeRouter × Option RouteMatch)
cached_match request r = elim (RouteCache.get (cache_key request) r.match_cache) [
  | some found ↦ some (r, found)
  | none ↦ elim (match_route r.routes request.url.pathname request.method) [
    | none ↦ none
    | some found ↦
        some
          (record r { match_cache = RouteCache.set (cache_key request) found r.match_cache }, found)
  ]
]

abbrev with_cors : Option CorsConfig → Text → Response → Response
with_cors none origin response = response
with_cors (some config) origin response = record response {
  headers = set_all (cors_headers origin config) response.headers;
}

abbrev pub is_preflight : Request → Option CorsConfig → Bool
is_preflight request none = false
is_preflight request (some config) = request.method == codes "OPTIONS"

abbrev pub preflight : Option CorsConfig → Text → Response
preflight none origin = reply 204 empty
preflight (some config) origin = record {
  status = 204;
  headers = set_all (preflight_headers origin config) [];
  body = empty;
}

abbrev pub replied : EdgeRouter × Response → EdgeRouter × Option Response
replied (r, response) = (r, some response)

module _ (parse_url : Text → Option Url) (backend_fetch : ProxyRequest → Option Response)
    (cors : Option CorsConfig) (api_key : Option Text) (parse_body : Text → UpdateBody) where
  abbrev proxied_response : Proxied → Option Response
  proxied_response throws = none
  proxied_response forbidden = some (reply 403 internal_origin)
  proxied_response (forward p) = backend_fetch p

  -- The answer once the match is known.
  unfoldable pub answer : Request → Option RouteMatch → Option Response
  answer request none = some (reply 404 (not_found request.url.pathname))
  answer request (some found) = elim (proxied_response (proxy_request parse_url request found)) [
    | none ↦ none
    | some response ↦ some (with_cors cors (or_empty (header (codes "origin") request)) response)
  ]

  unfoldable pub match_and_answer : Request → EdgeRouter → EdgeRouter × Option Response
  match_and_answer request r = elim (cached_match request r) [
    | none ↦ (r, none)
    | some (r', found) ↦ (r', answer request found)
  ]

  unfoldable pub fetch : Request → EdgeRouter → EdgeRouter × Option Response
  fetch request r =
      if request.url.pathname == codes "/__health"
      then (r, some (reply 200 (health (length r.routes))))
      else if request.url.pathname == codes "/__routes" && request.method == codes "POST"
      then replied (
          apply_update
            (handle_update_routes parse_url (header (codes "authorization") request)
              (parse_body request.body) api_key)
            r)
      else if request.url.pathname == codes "/__routes" && request.method == codes "GET"
      then (r, some (reply 200 (listing (map listed_route r.routes))))
      else if is_preflight request cors
      then (r, some (preflight cors (or_empty (header (codes "origin") request))))
      else match_and_answer request r
