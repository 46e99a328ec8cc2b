-- ===== src/Session/Cookies.antt =====
-- packages/cache/src/session.ts: the cookie of a session, written and read.
pub mod ReadBack
use celsian.Base.{
  ℕ, ◌/◌, Bool, not, ◌&&◌, ◌||◌, Option, none, some, List, [], ◌∷◌, ◌++◌, Text, codes, text_eq,
  ◌==◌, nat_beq, leb, decimal, split_on, if◌then◌else◌,
}
use celsian.Words.{join_with}
use celsian.Words.Escapes.{encode_uri_component}
use celsian.Cron.Words.{trim}
use celsian.Router.Paths.{decode_uri_component}
use celsian.Session.{SessionOptions, ttl, cookie_name_of}

-- A character of `COOKIE_VALUE_SAFE`.
abbrev pub is_safe_unit : ℕ → Bool
is_safe_unit c =
    nat_beq c 0x21
    || (leb 0x23 c && leb c 0x2b)
    || (leb 0x2d c && leb c 0x3a)
    || (leb 0x3c c && leb c 0x5b)
    || (leb 0x5d c && leb c 0x7e)

unfoldable pub is_safe : Text → Bool
is_safe [] = Bool.true
is_safe (c ∷ s) = is_safe_unit c && is_safe s

-- `encodeCookieValue`: `none` is a throw.
unfoldable pub encode_cookie_value : Text → Option Text
encode_cookie_value [] = none
encode_cookie_value (c ∷ s) = if is_safe (c ∷ s) then some (c ∷ s) else encode_uri_component (c ∷ s)

pub record CookieOptions : Type 0 where
  pub http_only : Option Bool
  pub secure : Option Bool
  pub same_site : Option Text
  pub path : Option Text
  pub max_age : Option ℕ

abbrev or_else : {A : Type 0} → Option A → A → A
or_else none d = d
or_else (some a) d = a

abbrev flag : Text → Bool → Text
flag name on = if on then codes "; " ++ name else []

abbrev attributes : SessionOptions → CookieOptions → Text
attributes o opts =
    codes "; Path="
    ++ (or_else opts.path (codes "/")
        ++ (codes "; Max-Age="
            ++ (decimal (or_else opts.max_age (ttl o / 1000))
                ++ (codes "; SameSite="
                    ++ (or_else opts.same_site (codes "Lax")
                        ++ (flag (codes "HttpOnly") (or_else opts.http_only Bool.true)
                            ++ flag (codes "Secure") (or_else opts.secure Bool.true)))))))

abbrev pub pair : Text → Text → Text
pair name value = name ++ b'=' ∷ value

unfoldable pub cookie : SessionOptions → Text → CookieOptions → Option Text
cookie o session_id opts = elim (encode_cookie_value session_id) [
  | none ↦ none
  | some value ↦ some (pair (cookie_name_of o) value ++ attributes o opts)
]

-- The decoded value, or the raw one if it is malformed.
abbrev pub or_raw : Text → Option Text → Text
or_raw raw none = raw
or_raw raw (some value) = value

-- `[key, ...rest]` of a cookie that is split at each `=`.
abbrev pub value_of : Text → List Text → Option Text
value_of name [] = none
value_of name (key ∷ rest) =
    if key == name
    then some
        (or_raw (join_with (codes "=") rest) (decode_uri_component (join_with (codes "=") rest)))
    else none

abbrev pub or_later : Option Text → Option Text → Option Text
or_later (some value) later = some value
or_later none later = later

unfoldable pub find_cookie : Text → List Text → Option Text
find_cookie name [] = none
find_cookie name (c ∷ cookies) =
    or_later (value_of name (split_on b'=' (trim c))) (find_cookie name cookies)

unfoldable pub parse_cookie : Text → Text → Option Text
parse_cookie header name = find_cookie name (split_on b';' header)
