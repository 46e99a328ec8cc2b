-- ===== src/RateLimit/Store/Capacity.antt =====
-- The cap on the keys of the store.
use celsian.Base.{
  ℕ, zero, suc, ◌+◌, ◌≤◌, ◌≡◌, ◌≢◌, ◌⊎◌, ap, subst, inl, inr, false, Option, none, some, List, [],
  ◌∷◌, Text, text_eq, arith, ltb, leb, length, Bool-cases, Option-cases,
}
use celsian.Map
use celsian.Map.{Map}
use celsian.Map.Laws.{
  Distinct, delete-Distinct, set-Distinct, length-delete-le, length-set-le, length-delete_present,
  length-set_present,
}
use celsian.RateLimit.Store.{
  WindowEntry, MemoryRateLimitStore, init, is_over, make_room, open_window, increment, cleanup,
  cleanup_loop, StoreOp, increment_op, cleanup_op, step, run_calls,
}
use celsian.RateLimit.Store.Eviction.{evict_one-NoneWeaker}

pub record IsValid (s : MemoryRateLimitStore) : Type 0 where
  pub distinct : Distinct s.entries
  pub bounded : length s.entries ≤ s.max_keys
  pub positive : 1 ≤ s.max_keys

-- The state with other entries.
with_entries-IsValid :
    (s : MemoryRateLimitStore) (m : Map Text WindowEntry)
    → IsValid s
    → Distinct m
    → length m ≤ s.max_keys
    → IsValid (record s { entries = m })
with_entries-IsValid s m v d h = record { distinct = d; bounded = h; positive = v.positive }

found_some : {o : Option WindowEntry} {e : WindowEntry} → o ≡ some e → o ≢ none
found_some f n = cc

-- There is room for a new key, behind `make_room`.
make_room_lem :
    (now : ℕ) (s : MemoryRateLimitStore)
    → IsValid s
    → IsValid (make_room now s).0
      × (length (make_room now s).0.entries + 1 ≤ (make_room now s).0.max_keys)
unfolding make_room
make_room_lem now s v = elim (Bool-cases (leb s.max_keys (length s.entries))) [
  | inr roomy ↦ rw roomy (v, ground arith)
  | inl full ↦
      let (k, e, there, taken, rest) =
        evict_one-NoneWeaker now s.entries v.distinct
          (λ empty. ground (arith, v.positive, ap length empty)) in
      let shorter : length (Map.delete k s.entries) + 1 ≡ length s.entries =
        length-delete_present k s.entries (found_some there) in
      rw full (
        rw taken (
          record {
            distinct = delete-Distinct k s.entries v.distinct;
            bounded = omega (arith, shorter, v.bounded);
            positive = v.positive;
          },
          omega (arith, shorter, v.bounded),
        ))
]

open_window-IsValid :
    (now : ℕ) (key : Text) (window : ℕ) (s : MemoryRateLimitStore)
    → IsValid s
    → (length s.entries + 1 ≤ s.max_keys) ⊎ (Map.get key s.entries ≢ none)
    → IsValid (open_window now key window s).0
unfolding open_window
open_window-IsValid now key window s v room =
    let entry : WindowEntry = record { count = 1; reset_at = now + window } in
    with_entries-IsValid s (Map.set key entry (Map.delete key s.entries)) v
      (set-Distinct key entry (Map.delete key s.entries) (delete-Distinct key s.entries v.distinct))
      (elim room [
        | inl free ↦ omega (
          arith,
          length-set-le key entry (Map.delete key s.entries),
          length-delete-le key s.entries,
        )
        | inr there ↦ omega (
          arith,
          length-set-le key entry (Map.delete key s.entries),
          length-delete_present key s.entries there,
          v.bounded,
        )
      ])

pub increment-IsValid :
    (now : ℕ) (key : Text) (window : ℕ) (s : MemoryRateLimitStore)
    → IsValid s
    → IsValid (increment now key window s).0
unfolding increment
increment-IsValid now key window s v = elim (Option-cases (Map.get key s.entries)) [
  | inl e ↦
      let (valid, room) = make_room_lem now s v in
      rw (e, increment) (open_window-IsValid now key window (make_room now s).0 valid (inl room))
  | inr (x, e) ↦ elim (Bool-cases (ltb now x.reset_at)) [
    | inr over ↦
        rw (e, increment) (rw over (open_window-IsValid now key window s v (inr (found_some e))))
    | inl live ↦
        rw (e, increment)
          (rw live (
            with_entries-IsValid s (Map.set key (record x { count = x.count + 1 }) s.entries) v
              (set-Distinct key (record x { count = x.count + 1 }) s.entries v.distinct)
              (omega (
                arith,
                length-set_present key (record x { count = x.count + 1 }) s.entries (found_some e),
                v.bounded,
              ))))
  ]
]

cleanup_loop-Distinct :
    (now : ℕ) (rest m : Map Text WindowEntry) → Distinct m → Distinct (cleanup_loop now rest m)
unfolding cleanup_loop
cleanup_loop-Distinct now [] m d = d
cleanup_loop-Distinct now ((k, e) ∷ rest) m d = elim (Bool-cases (is_over now e)) [
  | inl over ↦ rw over (cleanup_loop-Distinct now rest (Map.delete k m) (delete-Distinct k m d))
  | inr live ↦ rw live (cleanup_loop-Distinct now rest m d)
]

pub length-cleanup_loop-le :
    (now : ℕ) (rest m : Map Text WindowEntry) → length (cleanup_loop now rest m) ≤ length m
unfolding cleanup_loop
length-cleanup_loop-le now [] m = omega arith
length-cleanup_loop-le now ((k, e) ∷ rest) m = elim (Bool-cases (is_over now e)) [
  | inl over ↦
      rw over
        (omega (arith, length-cleanup_loop-le now rest (Map.delete k m), length-delete-le k m))
  | inr live ↦ rw live (length-cleanup_loop-le now rest m)
]

pub step-IsValid : (op : StoreOp) (s : MemoryRateLimitStore) → IsValid s → IsValid (step op s)
unfolding step cleanup
step-IsValid (increment_op now key window) s v = increment-IsValid now key window s v
step-IsValid (cleanup_op now) s v =
    with_entries-IsValid s (cleanup_loop now s.entries s.entries) v
      (cleanup_loop-Distinct now s.entries s.entries v.distinct)
      (omega (arith, length-cleanup_loop-le now s.entries s.entries, v.bounded))

pub same_state :
    {a b : MemoryRateLimitStore} → ◌≡◌ {A = Option MemoryRateLimitStore} (some a) (some b) → a ≡ b
same_state h = cc

new-IsValid : (n : ℕ) → IsValid (record { entries = []; max_keys = suc n; cap_warned = false })
new-IsValid n = record { distinct = tt; bounded = omega arith; positive = omega arith }

pub init-IsValid : (cap : Option ℕ) (s : MemoryRateLimitStore) → init cap ≡ some s → IsValid s
unfolding init
init-IsValid none s h = subst (λ x. IsValid x) (same_state h) (new-IsValid 99999)
init-IsValid (some zero) s h = cc
init-IsValid (some (suc n)) s h = subst (λ x. IsValid x) (same_state h) (new-IsValid n)

run_from-IsValid :
    (ops : List StoreOp) (s : MemoryRateLimitStore) → IsValid s → IsValid (run_calls ops s)
unfolding run_calls
run_from-IsValid [] s v = v
run_from-IsValid (op ∷ ops) s v = run_from-IsValid ops (step op s) (step-IsValid op s v)

-- However many keys are counted, a store that was made holds each key once and never more keys than
-- its cap.
pub run_calls-IsValid :
    (cap : Option ℕ) (s : MemoryRateLimitStore) (ops : List StoreOp)
    → init cap ≡ some s
    → IsValid (run_calls ops s)
run_calls-IsValid cap s ops made = run_from-IsValid ops s (init-IsValid cap s made)
