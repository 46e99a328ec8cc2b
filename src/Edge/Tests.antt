-- ===== src/Edge/Tests.antt =====
-- Runs of packages/edge-router/src, and its theorems at concrete routers.
use celsian.Base.{
  ◌≡◌, refl, true, false, Option, none, some, List, [], ◌∷◌, Text, codes, text_eq, text_beq, All,
  split_on, split_from,
}
use celsian.Map
use celsian.Map.{Map}
use celsian.Words.{upper_case, lower_case, ends_with, join_with}
use celsian.Cache.Store.{starts_with}
use celsian.Cron.Words.{is_digit, is_space, trim, parse_int}
use celsian.Router.Paths.{decode_from, decode_uri_component}
use celsian.Edge.Matching.{
  RouteEntry, CompiledRoute, RouteMatch, tokenize, pieces, names, compile_route, compile_routes,
  match_pieces, group, decode_params, match_upper, match_route, apply_rewrite,
}
use celsian.Edge.Matching.Routes.{Answers, match_route-Answers}
use celsian.Edge.RouteCache
use celsian.Edge.RouteCache.{RouteCache}
use celsian.Edge.Cors.{
  CorsConfig, among, is_origin_allowed, exposed, cors_headers, allow_origin, vary,
}
use celsian.Edge.Cors.Credentials.{cors_headers-credentials}
use celsian.Edge.Proxy.{Url, Request, ProxyRequest, is_internal_host, is_internal_url}
use celsian.Edge.Updates.{
  UpdateBody, malformed, routes, object, text, listed, is_authorized, bearer_token, check_pattern,
  check_methods, check_origin, validate_route_entry, check_route, check_routes, check_body,
  handle_update_routes,
}
use celsian.Edge.Updates.Installed.{IsSafe, handle_update_routes-IsSafe}
use celsian.Edge.ProjectId.{before_suffix, preview_from, get_project_id}
use celsian.Edge.Service.{Response, empty, create_edge_router}
use celsian.Edge.Service.Transparency.{run, plain_run, run-eq-plain_run}

edging : Unit {0}
unfolding tokenize pieces names compile_route match_pieces group decode_params match_upper
    match_route apply_rewrite upper_case lower_case ends_with join_with starts_with is_digit
    is_space trim parse_int decode_from decode_uri_component text_beq Map.get Map.set Map.has
    Map.delete RouteCache.set RouteCache.make_room exposed cors_headers is_origin_allowed
    is_internal_host is_internal_url is_authorized bearer_token check_pattern check_methods
    check_origin validate_route_entry check_route check_routes check_body handle_update_routes
    before_suffix preview_from get_project_id split_on split_from
edging = tt

abbrev entry : Text → List Text → RouteEntry
entry pattern methods = record {
  pattern = pattern;
  methods = methods;
  origin = codes "https://api.test";
  rewrite = none;
  headers = none;
}

abbrev params_of : Option (Option RouteMatch) → Option (Map Text Text)
params_of none = none
params_of (some none) = none
params_of (some (some m)) = some m.params

abbrev entries : List RouteEntry
entries =
    entry (codes "/api/users/:id") (codes "get" ∷ [])
    ∷ entry (codes "/*/x/:id") (codes "*" ∷ [])
    ∷ []

abbrev table : List CompiledRoute
table = compile_routes entries

-- The second route shows that a wildcard before a parameter shifts the groups.
matched :
    (params_of (match_route table (codes "/api/users/7") (codes "GET"))
      ≡ some ((codes "id", codes "7") ∷ []))
    × (params_of (match_route table (codes "/a/x/7") (codes "PUT"))
        ≡ some ((codes "id", codes "a") ∷ []))
    × (match_route table (codes "/api/users/7/posts") (codes "GET") ≡ some none)
    × (match_route table (codes "/api/users/%ZZ") (codes "GET") ≡ none)
    × (apply_rewrite (codes "/v2/:id/all") ((codes "id", codes "7") ∷ []) ≡ codes "/v2/7/all")
unfolding edging
matched = (refl, refl, refl, refl, refl)

hosts :
    (is_internal_host (codes "10.0.0.1") ≡ true)
    × (is_internal_host (codes "172.20.1.1") ≡ true)
    × (is_internal_host (codes "172.32.1.1") ≡ false)
    × (is_internal_host (codes "fd12:3456::1") ≡ true)
    × (is_internal_host (codes "fd.example") ≡ false)
    × (get_project_id (codes "main--shop.preview.celsian.app") ≡ some (codes "shop:preview:main"))
    × (get_project_id (codes "shop.celsian.app") ≡ some (codes "shop"))
    × (get_project_id (codes "celsian.app") ≡ none)
unfolding edging
hosts = (refl, refl, refl, refl, refl, refl, refl, refl)

match_route-Answers_example :
    Answers
      (codes "/a/x/7")
      (codes "PUT")
      entries
      (match_route table (codes "/a/x/7") (codes "PUT"))
match_route-Answers_example = match_route-Answers (codes "/a/x/7") (codes "PUT") entries

abbrev cors : CorsConfig
cors = record {
  origin = among (codes "https://a.test" ∷ codes "https://b.test" ∷ []);
  methods = none;
  allow_headers = none;
  expose_headers = some (codes "x-a" ∷ []);
  credentials = true;
  max_age = none;
}

cors_headers-credentials_example :
    (false ≡ false)
    × (true ≡ true)
    × (is_origin_allowed (codes "https://b.test") cors ≡ true)
    × (Map.get allow_origin (cors_headers (codes "https://b.test") cors)
        ≡ some (codes "https://b.test"))
    × (Map.get vary (cors_headers (codes "https://b.test") cors) ≡ some (codes "Origin"))
unfolding edging
cors_headers-credentials_example = cors_headers-credentials (codes "https://b.test") cors refl

-- A parser that knows https with a host, and nothing else.
abbrev parse_url : Text → Option Url
parse_url s = some (record {
  protocol = codes "https:";
  hostname = codes "api.test";
  origin = s;
  pathname = codes "/";
  search = [];
})

abbrev update : UpdateBody
update = routes (
    object (text (codes "/a/:id")) (listed (text (codes "get") ∷ []))
      (text (codes "https://api.test")) none none
    ∷ [])

handle_update_routes-IsSafe_example :
    (is_authorized (some (codes "k")) (some (codes "Bearer k")) ≡ true)
    × All
        (λ (r : CompiledRoute). IsSafe parse_url r.entry)
        (compile_routes (entry (codes "/a/:id") (codes "get" ∷ []) ∷ []))
unfolding edging
handle_update_routes-IsSafe_example =
    handle_update_routes-IsSafe parse_url (some (codes "Bearer k")) update (some (codes "k"))
      (compile_routes (entry (codes "/a/:id") (codes "get" ∷ []) ∷ [])) refl

abbrev request : Text → Text → Request
request method path = record {
  method = method;
  url = record {
    protocol = codes "https:";
    hostname = codes "shop.celsian.app";
    origin = codes "https://shop.celsian.app";
    pathname = path;
    search = [];
  };
  headers = [];
  body = [];
}

abbrev backend_fetch : ProxyRequest → Option Response
backend_fetch p = some (record { status = 200; headers = []; body = empty })

abbrev requests : List Request
requests = request (codes "GET") (codes "/a/7") ∷ request (codes "GET") (codes "/a/7") ∷ []

run-eq-plain_run_example :
    run parse_url backend_fetch
      (some cors)
      none
      (λ _. malformed)
      requests
      (create_edge_router (entry (codes "/a/:id") (codes "get" ∷ []) ∷ []))
    ≡ plain_run parse_url backend_fetch
        (some cors)
        none
        (λ _. malformed)
        requests
        (compile_routes (entry (codes "/a/:id") (codes "get" ∷ []) ∷ []))
run-eq-plain_run_example =
    run-eq-plain_run parse_url backend_fetch (some cors) none (λ _. malformed)
      (entry (codes "/a/:id") (codes "get" ∷ []) ∷ []) requests
      ((refl, (refl, (refl, tt))), ((refl, (refl, (refl, tt))), tt))
