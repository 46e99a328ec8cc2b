-- ===== src/RateLimit/Hook.antt =====
-- packages/rate-limit/src/index.ts: the hook that `rateLimit` adds, on the in-memory store. The key
-- of the request is an argument, the digest of a long key is a parameter, and the clock is read for
-- the store and once more for `Retry-After`.
pub mod Quota
use celsian.Base.{
  ℕ, zero, suc, ◌+◌, ◌-◌, ◌/◌, max, Bool, not, ◌||◌, Option, none, some, List, [], ◌∷◌, ◌++◌, Text,
  codes, ltb, nat_beq, length, if◌then◌else◌,
}
use celsian.RateLimit.Store.{MemoryRateLimitStore, WindowEntry, increment}
use celsian.RateLimit.Address.{Cidr}
use celsian.RateLimit.Client.{
  Request, KeyOptions, parse_trusted_proxies, create_default_key_generator,
}

-- `Math.ceil(ms / 1000)` of a time that is not negative.
abbrev pub ceil_seconds : ℕ → ℕ
ceil_seconds ms = (ms + 999) / 1000

pub data Verdict : Type 0 where
  passed : Verdict
  too_many : (retry_after : ℕ) → Verdict

-- What the hook writes to the reply: the three headers, and the 429 with its `Retry-After`.
pub record Limited : Type 0 where
  pub limit : ℕ
  pub remaining : ℕ
  pub reset : ℕ
  pub verdict : Verdict

abbrev pub hashed_key_prefix : Text
hashed_key_prefix = codes "__hashed__:"

unfoldable pub limit_entry : (max_requests later : ℕ) → WindowEntry → Limited
limit_entry max_requests later e = record {
  limit = max_requests;
  remaining = max_requests - e.count;
  reset = ceil_seconds e.reset_at;
  verdict =
      if ltb max_requests e.count
      then too_many (max 1 (ceil_seconds (e.reset_at - later)))
      else passed;
}

module _ (sha256_hex : Text → Text) where
  unfoldable pub bounded_key : (max_key_length : ℕ) → Text → Text
  bounded_key max_key_length raw =
      if ltb max_key_length (length raw) then hashed_key_prefix ++ sha256_hex raw else raw

  unfoldable pub hook :
      (max_requests window max_key_length now later : ℕ)
      → Text
      → MemoryRateLimitStore
      → MemoryRateLimitStore × Limited
  hook max_requests window max_key_length now later raw s =
      let (s', entry, warning) = increment now (bounded_key max_key_length raw) window s in
      (s', limit_entry max_requests later entry)

-- What `rateLimit` takes.
pub record RateLimitOptions : Type 0 where
  pub max_requests : ℕ
  pub window : ℕ
  pub key_generator : Option (Request → Text)
  pub trusted_proxies : Option (List Text)
  pub trust_proxy : Option Bool
  pub trusted_proxy_hops : Option ℕ
  pub trust_x_real_ip : Option Bool
  pub max_key_length : Option ℕ

abbrev or_else : {A : Type 0} → Option A → A → A
or_else none d = d
or_else (some a) d = a

abbrev default_max_key_length : ℕ
default_max_key_length = 256

abbrev key_options : RateLimitOptions → Option (List Cidr) → KeyOptions
key_options o proxies = record {
  trusted_proxies = proxies;
  trust_proxy = or_else o.trust_proxy Bool.false;
  trusted_proxy_hops = or_else o.trusted_proxy_hops 1;
  trust_x_real_ip = or_else o.trust_x_real_ip Bool.false;
}

abbrev given_or_default :
    RateLimitOptions → Option (List Cidr) → Option (Request → Text) → Option (Request → Text)
given_or_default o proxies none = create_default_key_generator (key_options o proxies)
given_or_default o proxies (some f) = some f

-- The registration: the function that makes keys, or a throw. A number that is 0 is refused.
unfoldable pub register : RateLimitOptions → Option (Request → Text)
register o = elim (parse_trusted_proxies o.trusted_proxies) [
  | none ↦ none
  | some proxies ↦
      if nat_beq o.max_requests 0
        || nat_beq o.window 0
        || nat_beq (or_else o.trusted_proxy_hops 1) 0
        || nat_beq (or_else o.max_key_length default_max_key_length) 0
      then none
      else given_or_default o proxies o.key_generator
]
