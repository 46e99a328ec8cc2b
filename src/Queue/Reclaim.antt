-- ===== src/Queue/Reclaim.antt =====
-- What `reclaimExpired` does to the whole queue: a description by filters, without the loop.
use celsian.Base.{
  ℕ, ◌+◌, ◌-◌, ◌≤◌, ◌≡◌, refl, sym, ap, ◌∙◌, true, false, List, [], ◌∷◌, ◌++◌, inl, inr, arith,
  Text, text_eq, ltb, length, length-append, length-drop, drop, drop-append, drop-drop, Bool-cases,
  if◌then◌else◌, append_assoc, append-nil,
}
use celsian.Map
use celsian.Map.{Map}
use celsian.Map.Laws.{Distinct, delete-append_middle, Distinct-middle}
use celsian.Queue.Types.{QueueMessage, DeadLetterEntry, InFlightEntry, MemoryQueue}
use celsian.Queue.{
  keep_newest, push_dead, settle, expire, dead_entry, reclaim_entry, reclaim_loop, reclaim_expired,
}
use celsian.Queue.Validity.{IsValid, length-keep_newest}

keep_newest-drop {ℓ} :
    {A : Type ℓ} (n : ℕ) (xs : List A) → keep_newest n xs ≡ drop (length xs - n) xs
unfolding keep_newest
keep_newest-drop n xs = elim (Bool-cases (ltb n (length xs))) [
  | inl long ↦ rw long
  | inr short ↦ let none_over : length xs - n ≡ 0 = ground arith in rw (short, none_over)
]

-- Trimming early changes nothing.
keep_newest-append {ℓ} :
    {A : Type ℓ} (n : ℕ) (xs ys : List A)
    → keep_newest n (keep_newest n xs ++ ys) ≡ keep_newest n (xs ++ ys)
keep_newest-append n xs ys =
    rw
      (
        keep_newest-drop n xs,
        keep_newest-drop n (drop (length xs - n) xs ++ ys),
        keep_newest-drop n (xs ++ ys),
        ← drop-append (length xs - n) xs ys (omega arith),
        drop-drop,
      )
      (ap (λ k. drop k (xs ++ ys))
        (omega (arith, length-drop (length xs - n) (xs ++ ys), length-append xs ys)))

pub keep_newest_short {ℓ} :
    {A : Type ℓ} (n : ℕ) (xs : List A) → length xs ≤ n → keep_newest n xs ≡ xs
unfolding keep_newest
keep_newest_short n xs h = ground arith

module _ {I : Type 0} where
  -- The entries whose lease still runs.
  unfoldable pub live : ℕ → Map Text (InFlightEntry I) → Map Text (InFlightEntry I)
  live now [] = []
  live now ((id, entry) ∷ m) =
      if ltb now entry.expires_at then (id, entry) ∷ live now m else live now m

  -- The messages of the expired entries that have an attempt left, in the order of the map.
  unfoldable pub requeued : ℕ → ℕ → Map Text (InFlightEntry I) → List (QueueMessage I)
  requeued timeout now [] = []
  requeued timeout now ((id, entry) ∷ m) =
      if ltb now entry.expires_at
      then requeued timeout now m
      else if ltb entry.message.max_retries (entry.message.attempt + 1)
      then requeued timeout now m
      else record (expire timeout now entry.message) { available_at = now } ∷ requeued timeout now m

  -- The dead letters made of those that have none.
  unfoldable pub buried : ℕ → ℕ → Map Text (InFlightEntry I) → List (DeadLetterEntry I)
  buried timeout now [] = []
  buried timeout now ((id, entry) ∷ m) =
      if ltb now entry.expires_at
      then buried timeout now m
      else if ltb entry.message.max_retries (entry.message.attempt + 1)
      then dead_entry timeout now (expire timeout now entry.message) ∷ buried timeout now m
      else buried timeout now m

  -- The queue that the three lists describe.
  abbrev pub reclaimed : ℕ → Map Text (InFlightEntry I) → MemoryQueue I → MemoryQueue I
  reclaimed now entries q = record q {
    in_flight = live now entries;
    messages = q.messages ++ requeued q.visibility_timeout_ms now entries;
    dead = keep_newest q.max_dead_letters (q.dead ++ buried q.visibility_timeout_ms now entries);
  }

  -- A loop whose map begins with entries that it has kept.
  abbrev from_kept :
      ℕ → Map Text (InFlightEntry I) → Map Text (InFlightEntry I) → MemoryQueue I → MemoryQueue I
  from_kept now kept entries q = record (reclaimed now entries q) {
    in_flight = kept ++ live now entries;
  }

  module _ (now : ℕ) (kept rest : Map Text (InFlightEntry I)) (id : Text) (entry : InFlightEntry I)
      (q : MemoryQueue I) (e : q.in_flight ≡ kept ++ (id, entry) ∷ rest)
      (d : Distinct (kept ++ (id, entry) ∷ rest)) where
    deleted : Map.delete id q.in_flight ≡ kept ++ rest
    deleted = ap (Map.delete id) e ∙ delete-append_middle id entry kept rest d

    abbrev expired : QueueMessage I
    expired = expire q.visibility_timeout_ms now entry.message

    abbrev after_bury : MemoryQueue I
    after_bury = record q {
      in_flight = kept ++ rest;
      dead =
          keep_newest q.max_dead_letters
            (q.dead ++ dead_entry q.visibility_timeout_ms now expired ∷ []);
    }

    abbrev after_requeue : MemoryQueue I
    after_requeue = record q {
      in_flight = kept ++ rest;
      messages = q.messages ++ record expired { available_at = now } ∷ [];
    }

    reclaim_entry_spent :
        ltb now entry.expires_at ≡ false
        → ltb entry.message.max_retries (entry.message.attempt + 1) ≡ true
        → reclaim_entry now id entry q ≡ after_bury
    unfolding reclaim_entry settle push_dead expire
    reclaim_entry_spent over spent = ground (arith, deleted)

    reclaim_entry_left :
        ltb now entry.expires_at ≡ false
        → ltb entry.message.max_retries (entry.message.attempt + 1) ≡ false
        → reclaim_entry now id entry q ≡ after_requeue
    unfolding reclaim_entry settle push_dead expire
    reclaim_entry_left over left = ground (arith, deleted)

    from_kept_spent :
        ltb now entry.expires_at ≡ false
        → ltb entry.message.max_retries (entry.message.attempt + 1) ≡ true
        → from_kept now kept rest after_bury ≡ from_kept now kept ((id, entry) ∷ rest) q
    unfolding live requeued buried
    from_kept_spent over spent = ground (
      arith,
      keep_newest-append q.max_dead_letters
          (q.dead ++ dead_entry q.visibility_timeout_ms now expired ∷ [])
          (buried q.visibility_timeout_ms now rest),
      append_assoc q.dead (dead_entry q.visibility_timeout_ms now expired ∷ [])
          (buried q.visibility_timeout_ms now rest),
    )

    from_kept_left :
        ltb now entry.expires_at ≡ false
        → ltb entry.message.max_retries (entry.message.attempt + 1) ≡ false
        → from_kept now kept rest after_requeue ≡ from_kept now kept ((id, entry) ∷ rest) q
    unfolding live requeued buried
    from_kept_left over left = ground (
      arith,
      append_assoc q.messages (record expired { available_at = now } ∷ [])
          (requeued q.visibility_timeout_ms now rest),
    )

  reclaim_loop-from_kept :
      (now : ℕ) (kept entries : Map Text (InFlightEntry I)) (q : MemoryQueue I)
      → q.in_flight ≡ kept ++ entries
      → Distinct (kept ++ entries)
      → length q.dead ≤ q.max_dead_letters
      → reclaim_loop now entries q ≡ from_kept now kept entries q
  unfolding reclaim_loop reclaim_entry live requeued buried
  reclaim_loop-from_kept now kept [] q e d b = ground (
    arith,
    append-nil q.messages,
    append-nil q.dead,
    keep_newest_short q.max_dead_letters q.dead b,
  )
  reclaim_loop-from_kept now kept ((id, entry) ∷ rest) q e d b =
      elim (Bool-cases (ltb now entry.expires_at)) [
        | inl runs ↦
            let moved = append_assoc kept ((id, entry) ∷ []) rest in
            rw runs (
              reclaim_loop-from_kept now (kept ++ (id, entry) ∷ []) rest q (e ∙ sym moved)
                (rw moved d) b
              ∙ ground (arith, append_assoc kept ((id, entry) ∷ []) (live now rest)))
        | inr over ↦ elim (Bool-cases (ltb entry.message.max_retries (entry.message.attempt + 1))) [
          | inl spent ↦
              ap (reclaim_loop now rest)
                (reclaim_entry_spent now kept rest id entry q e d over spent)
              ∙ reclaim_loop-from_kept now kept rest _ refl (Distinct-middle id entry kept rest d)
                  (length-keep_newest q.max_dead_letters _)
              ∙ from_kept_spent now kept rest id entry q e d over spent
          | inr left ↦
              ap (reclaim_loop now rest) (reclaim_entry_left now kept rest id entry q e d over left)
              ∙ reclaim_loop-from_kept now kept rest _ refl (Distinct-middle id entry kept rest d) b
              ∙ from_kept_left now kept rest id entry q e d over left
        ]
      ]

  -- Reclaiming a well-formed queue keeps exactly the entries whose lease still runs, queues again,
  -- behind all that waits, each expired message that has an attempt left, and buries the others,
  -- of which the newest are kept up to the cap.
  pub reclaim_expired_lem :
      (now : ℕ) (q : MemoryQueue I)
      → IsValid q
      → reclaim_expired now q ≡ reclaimed now q.in_flight q
  unfolding reclaim_expired
  reclaim_expired_lem now q v =
      reclaim_loop-from_kept now [] q.in_flight q refl v.distinct v.dead_bounded
