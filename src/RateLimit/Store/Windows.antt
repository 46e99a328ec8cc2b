-- ===== src/RateLimit/Store/Windows.antt =====
-- The store against a limiter that keeps a window for every key.
use celsian.Base.{
  ℕ, zero, suc, ◌+◌, ◌≤◌, ◌≡◌, ◌≢◌, ◌∙◌, refl, sym, ap, subst, inl, inr, true, false, Option, none,
  some, List, [], ◌∷◌, Text, text_eq, text_beq_iff, ◌==◌, arith, ltb, leb, length, Bool-cases,
  Option-cases, All, if◌then◌else◌,
}
use celsian.Map
use celsian.Map.{Map}
use celsian.Map.Laws.{
  Distinct, get-set, get-delete, delete-Distinct, length-delete-le, length-set-le,
}
use celsian.RateLimit.Store.{
  WindowEntry, MemoryRateLimitStore, init, is_over, make_room, open_window, increment, cleanup,
  cleanup_loop, StoreOp, increment_op, cleanup_op, step,
}
use celsian.RateLimit.Store.Capacity.{
  IsValid, increment-IsValid, step-IsValid, init-IsValid, same_state, length-cleanup_loop-le,
}

-- The entry whose window still runs.
abbrev pub in_force : ℕ → Option WindowEntry → Option WindowEntry
in_force now none = none
in_force now (some e) = if ltb now e.reset_at then some e else none

-- One more request in a window, or the first of a new one.
abbrev pub counted : ℕ → ℕ → Option WindowEntry → WindowEntry
counted now window none = record { count = 1; reset_at = now + window }
counted now window (some e) = record { count = e.count + 1; reset_at = e.reset_at }

-- What the increments of a list of operations return.
unfoldable pub results : List StoreOp → MemoryRateLimitStore → List WindowEntry
results [] s = []
results (increment_op now key window ∷ ops) s =
    (increment now key window s).1 ∷ results ops (increment now key window s).0
results (cleanup_op now ∷ ops) s = results ops (cleanup now s)

-- What they return from a limiter that forgets no window.
unfoldable pub unbounded_results : List StoreOp → (Text → Option WindowEntry) → List WindowEntry
unbounded_results [] f = []
unbounded_results (increment_op now key window ∷ ops) f =
    let entry = counted now window (in_force now (f key)) in
    entry ∷ unbounded_results ops (λ k. if key == k then some entry else f k)
unbounded_results (cleanup_op now ∷ ops) f = unbounded_results ops f

abbrev time : StoreOp → ℕ
time (increment_op now key window) = now
time (cleanup_op now) = now

-- The clock does not fall, from a given time on.
abbrev pub Monotone : ℕ → List StoreOp → Type 0
Monotone from [] = Unit
Monotone from (op ∷ ops) = (from ≤ time op) × Monotone (time op) ops

in_force_later :
    (now later : ℕ) (o : Option WindowEntry)
    → now ≤ later
    → in_force later (in_force now o) ≡ in_force later o
in_force_later now later none h = refl
in_force_later now later (some e) h = ground arith

-- An increment returns the count of the running window, or opens a new one.
pub increment-counted :
    (now : ℕ) (key : Text) (window : ℕ) (s : MemoryRateLimitStore)
    → (increment now key window s).1 ≡ counted now window (in_force now (Map.get key s.entries))
unfolding increment open_window
increment-counted now key window s = elim (Option-cases (Map.get key s.entries)) [
  | inl e ↦ rw (e, increment) refl
  | inr (x, e) ↦ elim (Bool-cases (ltb now x.reset_at)) [
    | inl live ↦ rw (e, increment) (rw live refl)
    | inr over ↦ rw (e, increment) (rw over refl)
  ]
]

make_room_roomy :
    (now : ℕ) (s : MemoryRateLimitStore)
    → length s.entries + 1 ≤ s.max_keys
    → make_room now s ≡ (s, none)
unfolding make_room
make_room_roomy now s room =
    let roomy : leb s.max_keys (length s.entries) ≡ false = ground arith in rw roomy refl

get-open_window :
    (now : ℕ) (key k : Text) (window : ℕ) (s : MemoryRateLimitStore)
    → IsValid s
    → Map.get k (open_window now key window s).0.entries
      ≡ (if key == k then some (counted now window none) else Map.get k s.entries)
unfolding open_window
get-open_window now key k window s v =
    rw get-set (rw (get-delete key k s.entries v.distinct) (ground arith))

-- Where there is room, an increment changes the entry of its key only.
pub get-increment :
    (now : ℕ) (key k : Text) (window : ℕ) (s : MemoryRateLimitStore)
    → IsValid s
    → length s.entries + 1 ≤ s.max_keys
    → Map.get k (increment now key window s).0.entries ≡ (
        if key == k
        then some (counted now window (in_force now (Map.get key s.entries)))
        else Map.get k s.entries)
unfolding increment
get-increment now key k window s v room = elim (Option-cases (Map.get key s.entries)) [
  | inl e ↦
      rw (e, increment) (rw (make_room_roomy now s room) (get-open_window now key k window s v))
  | inr (x, e) ↦ elim (Bool-cases (ltb now x.reset_at)) [
    | inl live ↦ rw (e, increment) (rw live (get-set key k _ s.entries))
    | inr over ↦ rw (e, increment) (rw over (get-open_window now key k window s v))
  ]
]

pub length-increment :
    (now : ℕ) (key : Text) (window : ℕ) (s : MemoryRateLimitStore)
    → length s.entries + 1 ≤ s.max_keys
    → (length (increment now key window s).0.entries ≤ length s.entries + 1)
      × ((increment now key window s).0.max_keys ≡ s.max_keys)
unfolding increment open_window
length-increment now key window s room = elim (Option-cases (Map.get key s.entries)) [
  | inl e ↦ rw (e, increment) (rw (make_room_roomy now s room) (opened, refl))
  | inr (x, e) ↦ elim (Bool-cases (ltb now x.reset_at)) [
    | inl live ↦ rw (e, increment) (rw live (length-set-le key _ s.entries, refl))
    | inr over ↦ rw (e, increment) (rw over (opened, refl))
  ]
]
  where
    opened :
        length
          (Map.set key (record { count = 1; reset_at = now + window }) (Map.delete key s.entries))
        ≤ length s.entries + 1
    opened = omega (
      arith,
      length-set-le key (record { count = 1; reset_at = now + window }) (Map.delete key s.entries),
      length-delete-le key s.entries,
    )

in_force-delete_over :
    (now : ℕ) (k j : Text) (e : WindowEntry) (m : Map Text WindowEntry)
    → Distinct m
    → Map.get j m ≡ some e
    → is_over now e ≡ true
    → in_force now (Map.get k (Map.delete j m)) ≡ in_force now (Map.get k m)
in_force-delete_over now k j e m d there over =
    rw (get-delete j k m d) (elim (Bool-cases (j == k)) [
      | inr other ↦ rw other refl
      | inl same ↦
          let ended : ltb now e.reset_at ≡ false = ground arith in
          rw same (
            subst (λ x. none ≡ in_force now (Map.get x m)) ((text_beq_iff j k).0 same)
              (rw there (rw ended refl)))
    ])

still_there :
    (j : Text) (rest m : Map Text WindowEntry)
    → Distinct m
    → All (λ p. p.0 ≢ j) rest
    → All (λ p. Map.get p.0 m ≡ some p.1) rest
    → All (λ p. Map.get p.0 (Map.delete j m) ≡ some p.1) rest
still_there j [] m d n a = tt
still_there j ((i, e) ∷ rest) m d (n, ns) (here, a) =
    (ground (arith, get-delete j i m d, text_beq_iff j i), still_there j rest m d ns a)

there_later :
    (j : Text) (e : WindowEntry) (rest m : Map Text WindowEntry)
    → All (λ p. p.0 ≢ j) rest
    → All (λ p. Map.get p.0 m ≡ some p.1) rest
    → All (λ p. Map.get p.0 ((j, e) ∷ m) ≡ some p.1) rest
unfolding Map.get
there_later j e [] m n a = tt
there_later j e ((i, x) ∷ rest) m (n, ns) (here, a) =
    (ground (arith, text_beq_iff j i), there_later j e rest m ns a)

pub each_found : (m : Map Text WindowEntry) → Distinct m → All (λ p. Map.get p.0 m ≡ some p.1) m
unfolding Map.get
each_found [] d = tt
each_found ((j, e) ∷ m) (n, d) =
    (ground (arith, text_beq_iff j j), there_later j e m m n (each_found m d))

-- A cleanup takes out no window that still runs.
pub in_force-cleanup_loop :
    (now : ℕ) (k : Text) (rest m : Map Text WindowEntry)
    → Distinct m
    → Distinct rest
    → All (λ p. Map.get p.0 m ≡ some p.1) rest
    → in_force now (Map.get k (cleanup_loop now rest m)) ≡ in_force now (Map.get k m)
unfolding cleanup_loop
in_force-cleanup_loop now k [] m d r a = refl
in_force-cleanup_loop now k ((j, e) ∷ rest) m d (new, r) (here, a) =
    elim (Bool-cases (is_over now e)) [
      | inr live ↦ rw live (in_force-cleanup_loop now k rest m d r a)
      | inl over ↦ rw over (
          in_force-cleanup_loop now k rest (Map.delete j m) (delete-Distinct j m d) r
            (still_there j rest m d new a)
          ∙ in_force-delete_over now k j e m d here over)
    ]

abbrev Agrees : ℕ → MemoryRateLimitStore → (Text → Option WindowEntry) → Type 0
Agrees now s f = (k : Text) → in_force now (Map.get k s.entries) ≡ in_force now (f k)

increment-Agrees :
    (now : ℕ) (key : Text) (window : ℕ) (s : MemoryRateLimitStore) (f : Text → Option WindowEntry)
    → IsValid s
    → length s.entries + 1 ≤ s.max_keys
    → Agrees now s f
    → Agrees now
        (increment now key window s).0
        (λ k. if key == k then some (counted now window (in_force now (f key))) else f k)
increment-Agrees now key window s f v room a k =
    rw (get-increment now key k window s v room) (elim (Bool-cases (key == k)) [
      | inl same ↦ rw same (rw (a key) refl)
      | inr other ↦ rw other (a k)
    ])

Agrees-later :
    (now later : ℕ) (s : MemoryRateLimitStore) (f : Text → Option WindowEntry)
    → now ≤ later
    → Agrees now s f
    → Agrees later s f
Agrees-later now later s f le a k =
    sym (in_force_later now later (Map.get k s.entries) le)
    ∙ ap (in_force later) (a k)
    ∙ in_force_later now later (f k) le

pub step-cleanup : (now : ℕ) (s : MemoryRateLimitStore) → IsValid s → IsValid (cleanup now s)
step-cleanup now s v = unfold step in step-IsValid (cleanup_op now) s v

cleanup-Agrees :
    (now : ℕ) (s : MemoryRateLimitStore) (f : Text → Option WindowEntry)
    → IsValid s
    → Agrees now s f
    → Agrees now (cleanup now s) f
unfolding cleanup
cleanup-Agrees now s f v a k =
    in_force-cleanup_loop now k s.entries s.entries v.distinct v.distinct
      (each_found s.entries v.distinct)
    ∙ a k

results-eq-from :
    (ops : List StoreOp) (from : ℕ) (s : MemoryRateLimitStore) (f : Text → Option WindowEntry)
    → IsValid s
    → length s.entries + length ops ≤ s.max_keys
    → Monotone from ops
    → Agrees from s f
    → results ops s ≡ unbounded_results ops f
unfolding results unbounded_results
results-eq-from [] from s f v room m a = refl
results-eq-from (increment_op now key window ∷ ops) from s f v room (le, m) a =
    let a' : Agrees now s f = Agrees-later from now s f le a in
    let roomy : length s.entries + 1 ≤ s.max_keys = omega (arith, room) in
    let (longer, same_cap) = length-increment now key window s roomy in
    let rest =
      results-eq-from ops now (increment now key window s).0 _
        (increment-IsValid now key window s v) (omega (arith, longer, same_cap, room)) m
        (increment-Agrees now key window s f v roomy a') in
    rw (increment-counted now key window s)
      (rw (a' key) (ap (λ es. counted now window (in_force now (f key)) ∷ es) rest))
results-eq-from (cleanup_op now ∷ ops) from s f v room (le, m) a =
    results-eq-from ops now (cleanup now s) f (step-cleanup now s v)
      (unfold cleanup in omega (arith, length-cleanup_loop-le now s.entries s.entries, room)) m
      (cleanup-Agrees now s f v (Agrees-later from now s f le a))

init-entries : (cap : Option ℕ) (s : MemoryRateLimitStore) → init cap ≡ some s → s.entries ≡ []
unfolding init
init-entries none s h = sym (ap (λ x. x.entries) (same_state h))
init-entries (some zero) s h = cc
init-entries (some (suc n)) s h = sym (ap (λ x. x.entries) (same_state h))

-- As long as a new store has seen no more operations than its cap of keys, and the clock does not
-- fall, every increment returns what a limiter returns that keeps a window for each key and never
-- forgets one: 1 and the end of a new window, or one more than before in the window that runs.
pub results-eq-unbounded_results :
    (cap : Option ℕ) (s : MemoryRateLimitStore) (from : ℕ) (ops : List StoreOp)
    → init cap ≡ some s
    → length ops ≤ s.max_keys
    → Monotone from ops
    → results ops s ≡ unbounded_results ops (λ k. none)
results-eq-unbounded_results cap s from ops made few m =
    let empty = init-entries cap s made in
    results-eq-from ops from s (λ k. none) (init-IsValid cap s made)
      (omega (arith, ap length empty, few)) m (λ k. unfold Map.get in rw empty refl)
