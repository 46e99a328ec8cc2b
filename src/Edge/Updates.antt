-- ===== src/Edge/Updates.antt =====
-- packages/edge-router/src/update-routes.ts. What `request.json()` gives is untyped: a field is not
-- there or counts as false, is a text, or is something else. The optional fields of a route, which
-- the code takes as they come, are those of the entry.
pub mod Installed
use celsian.Base.{
  ℕ, Bool, true, false, not, ◌&&◌, ◌||◌, Option, none, some, List, [], ◌∷◌, ◌++◌, Text, codes,
  text_eq, ◌==◌, nat_beq, ltb, length, drop, any, if◌then◌else◌,
}
use celsian.Map.{Map}
use celsian.Words.{upper_case}
use celsian.Cache.Store.{starts_with}
use celsian.Cron.Words.{is_space, trim_start}
use celsian.Edge.Matching.{RouteEntry, CompiledRoute, compile_routes}
use celsian.Edge.Proxy.{Url, is_internal_url}

pub data Field : Type 0 where
  falsy : Field
  text : Text → Field
  other : Field

pub data MethodsField : Type 0 where
  falsy : MethodsField
  listed : List Field → MethodsField
  other : MethodsField

pub data RawRoute : Type 0 where
  null : RawRoute
  object :
      (pattern : Field) (methods : MethodsField) (origin : Field) (rewrite : Option Text)
      (headers : Option (Map Text Text))
      → RawRoute

-- The body: no JSON, JSON without an array of routes, or an array.
pub data UpdateBody : Type 0 where
  malformed : UpdateBody
  no_routes : UpdateBody
  routes : List RawRoute → UpdateBody

pub data UpdateError : Type 0 where
  unauthorized : UpdateError
  missing_routes : UpdateError
  missing_field : UpdateError
  invalid_json : UpdateError
  pattern_not_string : UpdateError
  pattern_not_rooted : Text → UpdateError
  pattern_too_long : UpdateError
  methods_not_array : UpdateError
  invalid_method : Field → UpdateError
  origin_not_string : UpdateError
  origin_not_url : Text → UpdateError
  origin_not_http : Text → UpdateError
  origin_internal : Text → UpdateError

pub data Checked (A : Type 0) : Type 0 where
  ok : A → Checked A
  error : UpdateError → Checked A

infixl 5 ◌>>=◌
abbrev pub ◌>>=◌ : {A B : Type 0} → Checked A → (A → Checked B) → Checked B
ok a >>= f = f a
error e >>= f = error e

abbrev valid_http_methods : List Text
valid_http_methods =
    codes "GET"
    ∷ codes "POST"
    ∷ codes "PUT"
    ∷ codes "PATCH"
    ∷ codes "DELETE"
    ∷ codes "HEAD"
    ∷ codes "OPTIONS"
    ∷ []

abbrev pub is_valid_method : Text → Bool
is_valid_method m = any (λ v. v == upper_case m) valid_http_methods

abbrev max_pattern_length : ℕ
max_pattern_length = 500

abbrev pub is_rooted : Text → Bool
is_rooted [] = false
is_rooted (c ∷ s) = nat_beq c b'/'

unfoldable pub check_pattern : Field → Checked Text
check_pattern falsy = error pattern_not_string
check_pattern other = error pattern_not_string
check_pattern (text p) =
    if not (is_rooted p)
    then error (pattern_not_rooted p)
    else if ltb max_pattern_length (length p)
    then error pattern_too_long
    else ok p

unfoldable pub check_methods : List Field → Checked (List Text)
check_methods [] = ok []
check_methods (falsy ∷ ms) = error (invalid_method falsy)
check_methods (other ∷ ms) = error (invalid_method other)
check_methods (text m ∷ ms) =
    if is_valid_method m
    then (check_methods ms >>= λ checked. ok (m ∷ checked))
    else error (invalid_method (text m))

abbrev pub check_methods_field : MethodsField → Checked (List Text)
check_methods_field falsy = error methods_not_array
check_methods_field other = error methods_not_array
check_methods_field (listed ms) = check_methods ms

abbrev pub is_http : Text → Bool
is_http protocol = protocol == codes "http:" || protocol == codes "https:"

-- `!route.pattern`: the empty text counts as missing.
abbrev pub is_missing : Field → Bool
is_missing falsy = true
is_missing (text []) = true
is_missing (text (c ∷ s)) = false
is_missing other = false

abbrev pub methods_missing : MethodsField → Bool
methods_missing falsy = true
methods_missing (listed ms) = false
methods_missing other = false

-- `authHeader.replace(/^Bearer\s+/, "")`
abbrev drop_gap : Text → Text → Text
drop_gap whole [] = whole
drop_gap whole (c ∷ s) = if is_space c then trim_start s else whole

unfoldable pub bearer_token : Text → Text
bearer_token header =
    if starts_with (codes "Bearer") header then drop_gap header (drop 6 header) else header

-- `if (apiKey)`: without a key, or with an empty one, anyone may update.
unfoldable pub is_authorized : (api_key authorization : Option Text) → Bool
is_authorized none auth = true
is_authorized (some []) auth = true
is_authorized (some (c ∷ key)) none = false
is_authorized (some (c ∷ key)) (some header) = bearer_token header == c ∷ key

abbrev pub check_url : Text → Option Url → Checked Text
check_url o none = error (origin_not_url o)
check_url o (some url) =
    if not (is_http url.protocol)
    then error (origin_not_http url.protocol)
    else if is_internal_url url
    then error (origin_internal o)
    else ok o

module _ (parse_url : Text → Option Url) where
  unfoldable pub check_origin : Field → Checked Text
  check_origin falsy = error origin_not_string
  check_origin other = error origin_not_string
  check_origin (text o) = check_url o (parse_url o)

  -- `validateRouteEntry`, with the entry whose fields are then known to be texts.
  unfoldable pub validate_route_entry :
      Field → MethodsField → Field → Option Text → Option (Map Text Text) → Checked RouteEntry
  validate_route_entry pattern methods origin rewrite headers = do
    p ← check_pattern pattern
    ms ← check_methods_field methods
    o ← check_origin origin
    ok (record { pattern = p; methods = ms; origin = o; rewrite = rewrite; headers = headers })

  -- A round of the loop; a field of null is a throw, which the handler catches.
  unfoldable pub check_route : RawRoute → Checked RouteEntry
  check_route null = error invalid_json
  check_route (object pattern methods origin rewrite headers) =
      if is_missing pattern || methods_missing methods || is_missing origin
      then error missing_field
      else validate_route_entry pattern methods origin rewrite headers

  unfoldable pub check_routes : List RawRoute → Checked (List RouteEntry)
  check_routes [] = ok []
  check_routes (r ∷ rs) = check_route r >>= λ entry. check_routes rs >>= λ es. ok (entry ∷ es)

  unfoldable pub check_body : UpdateBody → Checked (List RouteEntry)
  check_body malformed = error invalid_json
  check_body no_routes = error missing_routes
  check_body (routes rs) = check_routes rs

  -- `handleUpdateRoutes`: the new table, or the error that the response carries.
  unfoldable pub handle_update_routes :
      (authorization : Option Text)
      → UpdateBody
      → (api_key : Option Text) → Checked (List CompiledRoute)
  handle_update_routes authorization body api_key =
      if not (is_authorized api_key authorization)
      then error unauthorized
      else (check_body body >>= λ entries. ok (compile_routes entries))

-- The status of the response to an update that fails.
unfoldable pub error_status : UpdateError → ℕ
error_status unauthorized = 401
error_status _ = 400
