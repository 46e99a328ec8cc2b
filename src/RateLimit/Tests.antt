-- ===== src/RateLimit/Tests.antt =====
-- Runs of the store of packages/rate-limit/src/index.ts, and its theorems at concrete stores.
use celsian.Base.{
  text_eq, sym, false, text_beq_iff, ℕ, ◌≡◌, ◌≢◌, ◌⊎◌, refl, none, some, List, [], ◌∷◌, true, arith,
  Text, codes, text_beq,
}
use celsian.Map
use celsian.Map.{Map}
use celsian.RateLimit.Store.{
  WindowEntry, MemoryRateLimitStore, is_over, eviction_scan_limit, init, victim, evict_one,
  make_room, open_window, increment, cleanup, cleanup_loop, StoreOp, increment_op, cleanup_op, step,
  run_calls,
}
use celsian.RateLimit.Store.Eviction.{NoneWeaker, evict_one-NoneWeaker}
use celsian.RateLimit.Store.Capacity.{IsValid, run_calls-IsValid}
use celsian.RateLimit.Store.Windows.{results, unbounded_results, results-eq-unbounded_results}

-- The definitions that a run goes through.
counting : Unit {0}
unfolding init victim evict_one make_room open_window increment cleanup_loop cleanup step run_calls
    results unbounded_results Map.get Map.set Map.delete text_beq
counting = tt

abbrev a : Text
a = codes "a"

abbrev b : Text
b = codes "b"

abbrev c : Text
c = codes "c"

abbrev entry : ℕ → ℕ → WindowEntry
entry count reset_at = record { count = count; reset_at = reset_at }

abbrev store : ℕ → MemoryRateLimitStore
store cap = record { entries = []; max_keys = cap; cap_warned = false }

-- Two requests of `a`, one of `b`, and a flood of new keys: `a` is kept.
abbrev flood : List StoreOp
flood =
    increment_op 0 a 60
    ∷ increment_op 1 a 60
    ∷ increment_op 2 b 60
    ∷ increment_op 3 c 60
    ∷ increment_op 4 a 60
    ∷ []

flooded :
    (results flood (store 2) ≡ entry 1 60 ∷ entry 2 60 ∷ entry 1 62 ∷ entry 1 63 ∷ entry 3 60 ∷ [])
    × ((run_calls flood (store 2)).entries ≡ (a, entry 3 60) ∷ (c, entry 1 63) ∷ [])
unfolding counting
flooded = (refl, refl)

run_calls-IsValid_example : IsValid (run_calls flood (store 2))
unfolding init
run_calls-IsValid_example = run_calls-IsValid (some 2) (store 2) flood refl

a_ne_b : a ≢ b
unfolding text_beq
a_ne_b = ground (arith, text_beq_iff a b)

evict_one-NoneWeaker_example :
    (k : Text) × (e : WindowEntry) × (Map.get k ((a, entry 2 60) ∷ (b, entry 1 62) ∷ []) ≡ some e)
    × (evict_one 3 ((a, entry 2 60) ∷ (b, entry 1 62) ∷ [])
        ≡ Map.delete k ((a, entry 2 60) ∷ (b, entry 1 62) ∷ []))
    × ((is_over 3 e ≡ true)
        ⊎ NoneWeaker eviction_scan_limit 3 e ((a, entry 2 60) ∷ (b, entry 1 62) ∷ []))
evict_one-NoneWeaker_example =
    evict_one-NoneWeaker 3 ((a, entry 2 60) ∷ (b, entry 1 62) ∷ [])
      (((λ e. a_ne_b (sym e)), tt), (tt, tt)) (λ e. cc)

results-eq-unbounded_results_example :
    results (increment_op 0 a 60 ∷ cleanup_op 5 ∷ increment_op 7 a 60 ∷ []) (store 3)
    ≡ unbounded_results (increment_op 0 a 60 ∷ cleanup_op 5 ∷ increment_op 7 a 60 ∷ []) (λ k. none)
unfolding init
results-eq-unbounded_results_example =
    results-eq-unbounded_results (some 3) (store 3) 0
      (increment_op 0 a 60 ∷ cleanup_op 5 ∷ increment_op 7 a 60 ∷ []) refl (omega arith)
      (omega arith, (omega arith, (omega arith, tt)))
