-- ===== src/RateLimit/Hook/Quota.antt =====
-- packages/rate-limit/src/index.ts: how many requests of one key a window lets through.
use celsian.Base.{
  ℕ, ◌+◌, ◌≤◌, Option, none, some, List, [], ◌∷◌, Text, text_eq, ◌==◌, length, if◌then◌else◌,
}
use celsian.Map
use celsian.RateLimit.Store.{MemoryRateLimitStore, WindowEntry, cleanup}
use celsian.RateLimit.Hook.{Verdict, passed, too_many, bounded_key, hook}

-- What comes to the limiter: a request, with its key and the two readings of the clock, or the
-- timer's cleanup.
pub data Arrival : Type 0 where
  attempt : (raw : Text) (now later : ℕ) → Arrival
  cleaning : (now : ℕ) → Arrival

abbrev pub time : Arrival → ℕ
time (attempt raw now later) = now
time (cleaning now) = now

abbrev passes : Verdict → ℕ
passes passed = 1
passes (too_many retry) = 0

module _ (sha256_hex : Text → Text) (max_requests window max_key_length : ℕ) (key : Text) where
  abbrev key_of : Text → Text
  key_of = bounded_key sha256_hex max_key_length

  -- How many of the requests of the key pass, among those of other keys.
  unfoldable pub passes_of : List Arrival → MemoryRateLimitStore → ℕ
  passes_of [] s = 0
  passes_of (attempt raw now later ∷ arrivals) s =
      let (s', limited) = hook sha256_hex max_requests window max_key_length now later raw s in
      (if key_of raw == key then passes limited.verdict else 0) + passes_of arrivals s'
  passes_of (cleaning now ∷ arrivals) s = passes_of arrivals (cleanup now s)

  unfoldable pub requests_of : List Arrival → ℕ
  requests_of [] = 0
  requests_of (attempt raw now later ∷ arrivals) =
      (if key_of raw == key then 1 else 0) + requests_of arrivals
  requests_of (cleaning now ∷ arrivals) = requests_of arrivals

  abbrev pub HasRoom : List Arrival → MemoryRateLimitStore → Type 0
  HasRoom arrivals s = length s.entries + length arrivals ≤ s.max_keys

  -- No window of the key is open.
  abbrev pub IsClosed : ℕ → Option WindowEntry → Type 0
  IsClosed now none = Unit
  IsClosed now (some e) = e.reset_at ≤ now
