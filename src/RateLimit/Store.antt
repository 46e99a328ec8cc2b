-- ===== src/RateLimit/Store.antt =====
-- packages/rate-limit/src/index.ts: `MemoryRateLimitStore`. `Date.now()` is an argument, and what is
-- reported at the cap is a result. The cleanup that the timer runs is an operation.
pub mod Eviction
pub mod Capacity
pub mod Windows
use celsian.Base.{
  ℕ, zero, suc, ◌+◌, Bool, true, false, not, ◌&&◌, ◌||◌, Option, none, some, List, [], ◌∷◌, Text,
  text_eq, ltb, leb, nat_beq, length, if◌then◌else◌,
}
use celsian.Map
use celsian.Map.{Map}

pub record WindowEntry : Type 0 where
  pub count : ℕ
  pub reset_at : ℕ

pub record MemoryRateLimitStore : Type 0 where
  pub entries : Map Text WindowEntry
  pub max_keys : ℕ
  pub cap_warned : Bool

abbrev default_max_keys : ℕ
default_max_keys = 100000

abbrev pub eviction_scan_limit : ℕ
eviction_scan_limit = 16

-- A cap below 1 is refused.
unfoldable pub init : Option ℕ → Option MemoryRateLimitStore
init none = some (record { entries = []; max_keys = default_max_keys; cap_warned = false })
init (some zero) = none
init (some (suc n)) = some (record { entries = []; max_keys = suc n; cap_warned = false })

abbrev pub is_over : ℕ → WindowEntry → Bool
is_over now e = leb e.reset_at now

-- Whether an entry is less established than the weakest one so far.
abbrev pub is_weaker : WindowEntry → WindowEntry → Bool
is_weaker e w = ltb e.count w.count || (nat_beq e.count w.count && ltb e.reset_at w.reset_at)

abbrev pub weaker : Option (Text × WindowEntry) → Text → WindowEntry → Option (Text × WindowEntry)
weaker none key e = some (key, e)
weaker (some (k, w)) key e = if is_weaker e w then some (key, e) else some (k, w)

-- The loop of `evictOne`, with the number of entries it may still look at: the entry to delete.
unfoldable pub victim :
    ℕ → ℕ → Option (Text × WindowEntry) → Map Text WindowEntry → Option (Text × WindowEntry)
victim left now weakest [] = weakest
victim zero now weakest (e ∷ m) = weakest
victim (suc left) now weakest ((key, e) ∷ m) =
    let rest = victim left now (weaker weakest key e) m in
    if is_over now e then some (key, e) else rest

unfoldable pub evict_one : ℕ → Map Text WindowEntry → Map Text WindowEntry
evict_one now m = elim (victim eviction_scan_limit now none m) [
  | none ↦ m
  | some (key, e) ↦ Map.delete key m
]

-- The guard of the cap, which warns once.
unfoldable pub make_room : ℕ → MemoryRateLimitStore → MemoryRateLimitStore × Option ℕ
make_room now s =
    if leb s.max_keys (length s.entries)
    then (
      record s { entries = evict_one now s.entries; cap_warned = true },
      if s.cap_warned then none else some s.max_keys,
    )
    else (s, none)

-- The end of `increment`: a new window.
unfoldable pub open_window :
    ℕ → Text → ℕ → MemoryRateLimitStore → MemoryRateLimitStore × WindowEntry
open_window now key window s =
    let entry : WindowEntry = record { count = 1; reset_at = now + window } in
    (record s { entries = Map.set key entry (Map.delete key s.entries) }, entry)

-- `increment`: the new state, the entry that is returned and the warning.
unfoldable pub increment :
    ℕ → Text → ℕ → MemoryRateLimitStore → MemoryRateLimitStore × WindowEntry × Option ℕ
increment now key window s = elim (Map.get key s.entries) [
  | some e ↦
      let counted : WindowEntry = record e { count = e.count + 1 } in
      let (s', entry) = open_window now key window s in
      if ltb now e.reset_at
      then (record s { entries = Map.set key counted s.entries }, counted, none)
      else (s', entry, none)
  | none ↦
      let (roomy, warning) = make_room now s in
      let (s', entry) = open_window now key window roomy in (s', entry, warning)
]

-- The timer's loop over the entries, which deletes those that are over.
unfoldable pub cleanup_loop : ℕ → Map Text WindowEntry → Map Text WindowEntry → Map Text WindowEntry
cleanup_loop now [] m = m
cleanup_loop now ((key, e) ∷ rest) m =
    let kept = cleanup_loop now rest m in
    let dropped = cleanup_loop now rest (Map.delete key m) in
    if is_over now e then dropped else kept

unfoldable pub cleanup : ℕ → MemoryRateLimitStore → MemoryRateLimitStore
cleanup now s = record s { entries = cleanup_loop now s.entries s.entries }

pub data StoreOp : Type 0 where
  increment_op : (now : ℕ) → Text → (window : ℕ) → StoreOp
  cleanup_op : ℕ → StoreOp

unfoldable pub step : StoreOp → MemoryRateLimitStore → MemoryRateLimitStore
step (increment_op now key window) s = (increment now key window s).0
step (cleanup_op now) s = cleanup now s

unfoldable pub run_calls : List StoreOp → MemoryRateLimitStore → MemoryRateLimitStore
run_calls [] s = s
run_calls (op ∷ ops) s = run_calls ops (step op s)
