-- ===== src/RateLimit/Client.antt =====
-- packages/rate-limit/src/index.ts: the key of a request, from the headers of the declared proxies or
-- the address of the connection.
pub mod Spoofing
use celsian.Base.{
  ℕ, zero, suc, ◌-◌, Bool, true, false, not, Option, none, some, List, [], ◌∷◌, map, reverse, Text,
  codes, text_eq, ltb, nat_beq, length, drop, split_on, if◌then◌else◌,
}
use celsian.Map
use celsian.Map.{Map}
use celsian.Cron.Words.{trim}
use celsian.Router.Paths.{non_empty}
use celsian.RateLimit.Address.{Cidr, canonicalize_ip, is_trusted_proxy, parse_cidr}

-- What the limiter reads of a request: the headers by their names in lower case, and the address
-- that the application has found.
pub record Request : Type 0 where
  pub headers : Map Text Text
  pub ip : Option Text

abbrev pub anonymous_key : Text
anonymous_key = codes "anonymous"

unfoldable pub split_forwarded_for : Text → List Text
split_forwarded_for value = non_empty (map trim (split_on b',' value))

-- The loop from the right, over the entries in reverse.
unfoldable pub rightmost_untrusted : List Cidr → List Text → Option Text
rightmost_untrusted trusted [] = none
rightmost_untrusted trusted (candidate ∷ entries) =
    let further = rightmost_untrusted trusted entries in
    if not (is_trusted_proxy candidate trusted) then canonicalize_ip candidate else further

-- `if (!xff) return null`: an empty header counts as missing.
abbrev pub with_header : Option Text → (Text → Option Text) → Option Text
with_header none f = none
with_header (some []) f = none
with_header (some (c ∷ s)) f = f (c ∷ s)

abbrev pub forwarded_for : Request → Option Text
forwarded_for request = Map.get (codes "x-forwarded-for") request.headers

unfoldable pub client_ip_from_trusted_proxies : List Cidr → Text → Option Text
client_ip_from_trusted_proxies trusted xff =
    rightmost_untrusted trusted (reverse (split_forwarded_for xff))

abbrev pub entry_at : ℕ → List Text → Option Text
entry_at n [] = none
entry_at zero (e ∷ es) = some e
entry_at (suc n) (e ∷ es) = entry_at n es

abbrev pub canonicalized : Option Text → Option Text
canonicalized none = none
canonicalized (some e) = canonicalize_ip e

-- `entries[entries.length - hops]`, if there are as many.
unfoldable pub client_ip_from_hop_count : ℕ → Text → Option Text
client_ip_from_hop_count hops xff =
    let entries = split_forwarded_for xff in
    if ltb (length entries) hops
    then none
    else canonicalized (entry_at (length entries - hops) entries)

pub record KeyOptions : Type 0 where
  pub trusted_proxies : Option (List Cidr)
  pub trust_proxy : Bool
  pub trusted_proxy_hops : ℕ
  pub trust_x_real_ip : Bool

abbrev pub from_xff : Option (List Cidr) → ℕ → Text → Option Text
from_xff (some trusted) hops xff = client_ip_from_trusted_proxies trusted xff
from_xff none hops xff = client_ip_from_hop_count hops xff

abbrev pub or_key : Option Text → Text → Text
or_key none other = other
or_key (some key) other = key

-- The function that `createDefaultKeyGenerator` returns. A canonical form is never empty.
unfoldable pub generate_key : KeyOptions → Request → Text
generate_key o request =
    or_key (with_header (forwarded_for request) (from_xff o.trusted_proxies o.trusted_proxy_hops)) (
      or_key
        (if o.trust_x_real_ip
          then with_header (Map.get (codes "x-real-ip") request.headers) canonicalize_ip
          else none)
        (or_key (canonicalized request.ip) anonymous_key))

-- `createDefaultKeyGenerator`: without proxies and without trust it refuses.
unfoldable pub create_default_key_generator : KeyOptions → Option (Request → Text)
create_default_key_generator o = elim o.trusted_proxies [
  | none ↦ if not o.trust_proxy then none else some (generate_key o)
  | some trusted ↦ some (generate_key o)
]

unfoldable pub parse_all : List Text → Option (List Cidr)
parse_all [] = some []
parse_all (value ∷ values) = elim (parse_cidr value) [
  | none ↦ none
  | some cidr ↦ elim (parse_all values) [ none ↦ none | some cidrs ↦ some (cidr ∷ cidrs) ]
]

-- `parseTrustedProxies`: `none` is a throw, also on an empty list, and `some none` is null.
unfoldable pub parse_trusted_proxies : Option (List Text) → Option (Option (List Cidr))
parse_trusted_proxies none = some none
parse_trusted_proxies (some []) = none
parse_trusted_proxies (some (v ∷ vs)) = elim (parse_all (v ∷ vs)) [
  | none ↦ none
  | some cidrs ↦ some (some cidrs)
]
