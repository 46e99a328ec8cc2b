-- ===== src/Edge/Proxy.antt =====
-- packages/edge-router/src/proxy.ts. The URL parser of the platform and the fetch of a backend are
-- parameters. Headers are a map by their names in lower case.
use celsian.Base.{
  ℕ, Bool, false, not, ◌&&◌, ◌||◌, Option, none, some, List, [], ◌∷◌, ◌++◌, reverse, Text, codes,
  text_eq, ◌==◌, nat_beq, leb, split_on, if◌then◌else◌,
}
use celsian.Base.Int.{ℤ, pos, negsuc}
use celsian.Map
use celsian.Map.{Map}
use celsian.Words.{lower_case}
use celsian.Cache.Store.{starts_with}
use celsian.Cron.Words.{trim, is_digit, parse_int}
use celsian.Edge.Matching.{RouteEntry, RouteMatch, apply_rewrite}

-- The parts of a URL that the code reads; `origin` is the scheme with the authority.
pub record Url : Type 0 where
  pub protocol : Text
  pub hostname : Text
  pub origin : Text
  pub pathname : Text
  pub search : Text

abbrev strip_open : Text → Text
strip_open [] = []
strip_open (c ∷ s) = if nat_beq c b'[' then s else c ∷ s

abbrev strip_close : Text → Text
strip_close s = elim (reverse s) [ [] ↦ [] | c ∷ r ↦ if nat_beq c b']' then reverse r else s ]

abbrev in_second_range : Option ℤ → Bool
in_second_range none = false
in_second_range (some (pos n)) = leb 16 n && leb n 31
in_second_range (some (negsuc n)) = false

-- `parseInt(hostname.split(".")[1], 10)`
abbrev second_number : List Text → Option ℤ
second_number [] = none
second_number (a ∷ []) = none
second_number (a ∷ b ∷ rest) = parse_int b

abbrev is_lower_hex : ℕ → Bool
is_lower_hex c = is_digit c || (leb b'a' c && leb c b'f')

-- `[0-9a-f]{0,2}:`
abbrev short_group : Text → Bool
short_group [] = false
short_group (a ∷ []) = nat_beq a b':'
short_group (a ∷ b ∷ []) = nat_beq a b':' || (is_lower_hex a && nat_beq b b':')
short_group (a ∷ b ∷ c ∷ s) =
    nat_beq a b':' || (is_lower_hex a && (nat_beq b b':' || (is_lower_hex b && nat_beq c b':')))

-- `/^f[cd][0-9a-f]{0,2}:/`
abbrev is_private_group : Text → Bool
is_private_group [] = false
is_private_group (a ∷ []) = false
is_private_group (a ∷ b ∷ s) = nat_beq a b'f' && (nat_beq b b'c' || nat_beq b b'd') && short_group s

abbrev is_private_v6 : Text → Bool
is_private_v6 lower =
    (starts_with (codes "fd") lower || starts_with (codes "fc") lower)
    && (starts_with (codes "fd00:") lower
        || starts_with (codes "fc00:") lower
        || lower == codes "fd00"
        || lower == codes "fc00"
        || is_private_group lower)

unfoldable pub is_internal_host : Text → Bool
is_internal_host host =
    starts_with (codes "127.") host
    || host == codes "localhost"
    || starts_with (codes "10.") host
    || (starts_with (codes "172.") host && in_second_range (second_number (split_on b'.' host)))
    || starts_with (codes "192.168.") host
    || host == codes "0.0.0.0"
    || host == codes "::1"
    || is_private_v6 (lower_case host)

unfoldable pub is_internal_url : Url → Bool
is_internal_url url = is_internal_host (strip_close (strip_open url.hostname))

pub record Request : Type 0 where
  pub method : Text
  pub url : Url
  pub headers : Map Text Text
  pub body : Text

abbrev pub header_set : Text → Text → Map Text Text → Map Text Text
header_set name value h = Map.set (lower_case name) value h

unfoldable pub set_all : Map Text Text → Map Text Text → Map Text Text
set_all [] h = h
set_all ((name, value) ∷ rest) h = set_all rest (header_set name value h)

-- `split(",").at(-1)?.trim()`
abbrev last_hop : List Text → Text
last_hop parts = elim (reverse parts) [ [] ↦ [] | s ∷ rest ↦ trim s ]

unfoldable pub forwarded_for : Map Text Text → Text
forwarded_for headers = elim (Map.get (codes "cf-connecting-ip") headers) [
  | some ip ↦ ip
  | none ↦ elim (Map.get (codes "x-forwarded-for") headers) [
    | none ↦ codes "unknown"
    | some xff ↦ last_hop (split_on b',' xff)
  ]
]

-- `url.protocol.replace(":", "")`
abbrev without_colon : Text → Text
without_colon [] = []
without_colon (c ∷ s) = if nat_beq c b':' then s else c ∷ without_colon s

abbrev with_headers : Option (Map Text Text) → Map Text Text → Map Text Text
with_headers none h = h
with_headers (some custom) h = set_all custom h

unfoldable pub forward_headers : Request → RouteEntry → Map Text Text
forward_headers request entry = with_headers entry.headers (
    header_set (codes "X-Forwarded-For") (forwarded_for request.headers) (
      header_set (codes "X-Forwarded-Proto") (without_colon request.url.protocol)
        (header_set (codes "X-Forwarded-Host") request.url.hostname request.headers)))

-- `if (route.entry.rewrite)`: an empty rewrite is none.
abbrev pub target_path : Option Text → Map Text Text → Text → Text
target_path none params pathname = pathname
target_path (some []) params pathname = pathname
target_path (some (c ∷ s)) params pathname = apply_rewrite (c ∷ s) params

abbrev sends_body : Text → Bool
sends_body method = not (method == codes "GET") && not (method == codes "HEAD")

pub record ProxyRequest : Type 0 where
  pub target : Url
  pub method : Text
  pub headers : Map Text Text
  pub body : Option Text

pub data Proxied : Type 0 where
  throws : Proxied
  forbidden : Proxied
  forward : ProxyRequest → Proxied

module _ (parse_url : Text → Option Url) where
  -- What `proxyRequest` fetches; `new URL` throws on a text that is no URL.
  unfoldable pub proxy_request : Request → RouteMatch → Proxied
  proxy_request request m = elim (parse_url m.route.entry.origin) [
    | none ↦ throws
    | some origin_url ↦
        if is_internal_url origin_url
        then forbidden
        else elim (parse_url (
            origin_url.origin
            ++ target_path m.route.entry.rewrite m.params request.url.pathname
            ++ request.url.search)) [
              | none ↦ throws
              | some target ↦ forward (record {
                target = target;
                method = request.method;
                headers = forward_headers request m.route.entry;
                body = if sends_body request.method then some request.body else none;
              })
            ]
  ]
