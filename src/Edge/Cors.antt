-- ===== src/Edge/Cors.antt =====
-- packages/edge-router/src/cors.ts. An object of headers is a `Map`, and a number of seconds a
-- natural number.
pub mod Credentials
use celsian.Base.{
  ℕ, Bool, true, false, not, ◌&&◌, Option, none, some, List, [], ◌∷◌, Text, codes, text_eq, ◌==◌,
  decimal, any, if◌then◌else◌,
}
use celsian.Map
use celsian.Map.{Map}
use celsian.Words.{join_with}

pub data OriginRule : Type 0 where
  exactly : Text → OriginRule
  among : List Text → OriginRule
  decided : (Text → Bool) → OriginRule

pub record CorsConfig : Type 0 where
  pub origin : OriginRule
  pub methods : Option (List Text)
  pub allow_headers : Option (List Text)
  pub expose_headers : Option (List Text)
  pub credentials : Bool
  pub max_age : Option ℕ

abbrev rule_allows : OriginRule → Text → Bool
rule_allows (exactly s) origin = if s == codes "*" then true else s == origin
rule_allows (among origins) origin = any (λ s. s == origin) origins
rule_allows (decided f) origin = f origin

unfoldable pub is_origin_allowed : Text → CorsConfig → Bool
is_origin_allowed origin config = rule_allows config.origin origin

abbrev pub is_wildcard : OriginRule → Bool
is_wildcard (exactly s) = s == codes "*"
is_wildcard (among origins) = false
is_wildcard (decided f) = false

abbrev pub allow_origin : Text
allow_origin = codes "Access-Control-Allow-Origin"

abbrev pub allow_credentials : Text
allow_credentials = codes "Access-Control-Allow-Credentials"

abbrev pub vary : Text
vary = codes "Vary"

abbrev comma : Text
comma = codes ", "

-- The header that names what a script may read, if the list is there and not empty.
unfoldable pub exposed : Option (List Text) → Map Text Text → Map Text Text
exposed none h = h
exposed (some []) h = h
exposed (some (name ∷ names)) h =
    Map.set (codes "Access-Control-Expose-Headers") (join_with comma (name ∷ names)) h

unfoldable pub cors_headers : Text → CorsConfig → Map Text Text
cors_headers origin config =
    if not (is_origin_allowed origin config)
    then []
    else let wild = is_wildcard config.origin in
      let named = Map.set allow_origin (if wild then codes "*" else origin) [] in
      let trusted =
        if config.credentials && not wild
        then Map.set allow_credentials (codes "true") named
        else named in
      exposed config.expose_headers
        (if not wild then Map.set vary (codes "Origin") trusted else trusted)

abbrev pub or_default : Option (List Text) → List Text → List Text
or_default none d = d
or_default (some l) d = l

abbrev default_methods : List Text
default_methods =
    codes "GET" ∷ codes "POST" ∷ codes "PUT" ∷ codes "PATCH" ∷ codes "DELETE" ∷ codes "OPTIONS" ∷ []

abbrev default_headers : List Text
default_headers = codes "Content-Type" ∷ codes "Authorization" ∷ []

abbrev with_max_age : Option ℕ → Map Text Text → Map Text Text
with_max_age none h = h
with_max_age (some n) h = Map.set (codes "Access-Control-Max-Age") (decimal n) h

-- The headers of the preflight response, whose status is 204.
unfoldable pub preflight_headers : Text → CorsConfig → Map Text Text
preflight_headers origin config = with_max_age config.max_age (
    Map.set (codes "Access-Control-Allow-Headers")
      (join_with comma (or_default config.allow_headers default_headers))
      (Map.set (codes "Access-Control-Allow-Methods")
        (join_with comma (or_default config.methods default_methods)) (cors_headers origin config)))
