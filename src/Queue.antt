-- ===== src/Queue.antt =====
-- packages/core/src/queue.ts: the in-process queue backend. A message's input is a type parameter,
-- as the queue never reads it. `Date.now()` and `crypto.randomUUID()` are arguments of the
-- operations, one argument for each reading. `pop` hands out a copy of the message, so no caller
-- shares an object with the queue and the state is passed on as a value.
pub mod Types
pub mod Validity
pub mod Reclaim
pub mod Lease
pub mod Delivery
pub mod Times
pub mod Conservation
pub mod DeadLetters
pub mod StaleDeadLetter
mod Tests
use celsian.Base.{
  ℕ, ◌+◌, ◌-◌, Bool, true, false, Option, none, some, List, [], ◌∷◌, ◌++◌, reverse, Text, codes,
  decimal, ◌==◌, text_eq, if◌then◌else◌, leb, ltb, nat_beq, length, drop, take, min,
}
use celsian.Map
use celsian.Map.{Map}
use Types.{
  TaskFailure, QueueMessage, DeadLetterEntry, InFlightEntry, MemoryQueueOptions, MemoryQueue,
}

abbrev default_visibility_timeout : ℕ
default_visibility_timeout = 30000

-- `value ?? fallback`
abbrev pub or_else {ℓ} : {A : Type ℓ} → Option A → A → A
or_else none d = d
or_else (some a) d = a

-- `leaseToken !== undefined && entry.leaseToken !== leaseToken`
abbrev pub is_stale : Option Text → Text → Bool
is_stale none held = false
is_stale (some token) held = if held == token then false else true

-- `list.splice(0, list.length - limit)` when the list is longer than the limit.
pub keep_newest {ℓ} : {A : Type ℓ} → ℕ → List A → List A
keep_newest limit xs = if ltb limit (length xs) then drop (length xs - limit) xs else xs

abbrev pub lease_expired_error : ℕ → Text
unfolding decimal
lease_expired_error ms =
    codes "Lease expired after " ++ (decimal ms ++ codes "ms without ack or heartbeat")

-- `list.findIndex(p)` followed by `list.splice(idx, 1)`: the first hit, and the list without it.
pub splice_first {ℓ} : {A : Type ℓ} → (A → Bool) → List A → Option (A × List A)
splice_first p [] = none
splice_first p (x ∷ xs) =
    if p x
    then some (x, xs)
    else elim (splice_first p xs) [ none ↦ none | some (y, ys) ↦ some (y, x ∷ ys) ]

-- `failure ? [...(failures ?? []), failure] : failures`
abbrev pub add_failure : Option TaskFailure → Option (List TaskFailure) → Option (List TaskFailure)
add_failure none fs = fs
add_failure (some f) fs = some (or_else fs [] ++ f ∷ [])

module _ {I : Type 0} where
  unfoldable pub init : MemoryQueueOptions → MemoryQueue I
  init options = record {
    messages = [];
    in_flight = [];
    dead = [];
    completed = [];
    max_completed_jobs = or_else options.max_completed_jobs 1000;
    max_dead_letters = or_else options.max_dead_letters 1000;
    visibility_timeout_ms = or_else options.visibility_timeout default_visibility_timeout;
  }

  unfoldable pub push : QueueMessage I → MemoryQueue I → MemoryQueue I
  push message q = record q { messages = q.messages ++ message ∷ [] }

  -- `pushDead`
  pub push_dead : DeadLetterEntry I → MemoryQueue I → MemoryQueue I
  push_dead entry q = record q { dead = keep_newest q.max_dead_letters (q.dead ++ entry ∷ []) }

  -- What `reclaimExpired` makes of the message of an expired entry, before it is queued or buried.
  pub expire : ℕ → ℕ → QueueMessage I → QueueMessage I
  expire timeout now m = record m {
    lease_token = none;
    failures = some (
        or_else m.failures []
        ++ record { attempt = m.attempt; error = lease_expired_error timeout; failed_at = now }
          ∷ []);
    attempt = m.attempt + 1;
  }

  pub dead_entry : ℕ → ℕ → QueueMessage I → DeadLetterEntry I
  dead_entry timeout now m = record {
    message = m;
    error = lease_expired_error timeout;
    failures = or_else m.failures [];
    dead_lettered_at = now;
  }

  -- The end of the loop body of `reclaimExpired`: the retry budget decides.
  pub settle : ℕ → QueueMessage I → MemoryQueue I → MemoryQueue I
  settle now m q =
      if ltb m.max_retries m.attempt
      then push_dead (dead_entry q.visibility_timeout_ms now m) q
      else record q { messages = q.messages ++ record m { available_at = now } ∷ [] }

  -- One round of the loop of `reclaimExpired`.
  pub reclaim_entry : ℕ → Text → InFlightEntry I → MemoryQueue I → MemoryQueue I
  reclaim_entry now id entry q =
      if ltb now entry.expires_at
      then q
      else settle now (expire q.visibility_timeout_ms now entry.message)
          (record q { in_flight = Map.delete id q.in_flight })

  pub reclaim_loop : ℕ → Map Text (InFlightEntry I) → MemoryQueue I → MemoryQueue I
  reclaim_loop now [] q = q
  reclaim_loop now ((id, entry) ∷ rest) q = reclaim_loop now rest (reclaim_entry now id entry q)

  unfoldable pub reclaim_expired : ℕ → MemoryQueue I → MemoryQueue I
  reclaim_expired now q = reclaim_loop now q.in_flight q

  -- The message as it is leased to a worker.
  pub deliver : Text → QueueMessage I → QueueMessage I
  deliver token m = record m {
    deliveries = some (or_else m.deliveries 0 + 1);
    lease_token = some token;
  }

  -- `pop` after `reclaimExpired`.
  pub lease_next : ℕ → Text → MemoryQueue I → MemoryQueue I × Option (QueueMessage I)
  lease_next now token q =
      elim (splice_first (λ (m : QueueMessage I). leb m.available_at now) q.messages) [
        | none ↦ (q, none)
        | some (m, rest) ↦ (
          record q {
            messages = rest;
            in_flight =
                Map.set m.id
                  (record {
                    message = deliver token m;
                    lease_token = token;
                    expires_at = now + q.visibility_timeout_ms;
                  })
                  q.in_flight;
          },
          some (deliver token m),
        )
      ]

  -- The clock is read twice, and the lease token is fresh.
  unfoldable pub pop :
      (reclaim_at now : ℕ) → Text → MemoryQueue I → MemoryQueue I × Option (QueueMessage I)
  pop reclaim_at now token q = lease_next now token (reclaim_expired reclaim_at q)

  unfoldable pub ack : Text → Option Text → MemoryQueue I → MemoryQueue I
  ack id token q = elim (Map.get id q.in_flight) [
    | none ↦ q
    | some entry ↦ if is_stale token entry.lease_token then q else record q {
      in_flight = Map.delete id q.in_flight;
      completed = keep_newest q.max_completed_jobs (q.completed ++ id ∷ []);
    }
  ]

  -- The message as `nack` puts it back.
  pub retry : ℕ → ℕ → Option TaskFailure → QueueMessage I → QueueMessage I
  retry now delay failure m = record m {
    attempt = m.attempt + 1;
    available_at = now + delay;
    lease_token = none;
    failures = add_failure failure m.failures;
  }

  unfoldable pub nack :
      ℕ → Text → Option ℕ → Option Text → Option TaskFailure → MemoryQueue I → MemoryQueue I
  nack now id delay token failure q = elim (Map.get id q.in_flight) [
    | none ↦ q
    | some entry ↦ if is_stale token entry.lease_token then q else record q {
      in_flight = Map.delete id q.in_flight;
      messages = q.messages ++ retry now (or_else delay 1000) failure entry.message ∷ [];
    }
  ]

  -- The entry is changed in place, so it keeps its position.
  unfoldable pub extend : ℕ → Text → Text → Option ℕ → MemoryQueue I → MemoryQueue I × Bool
  extend now id token extra q = elim (Map.get id q.in_flight) [
    | none ↦ (q, false)
    | some entry ↦
        if entry.lease_token == token
        then (
          record q {
            in_flight =
                Map.set id
                  (record entry { expires_at = now + or_else extra q.visibility_timeout_ms })
                  q.in_flight;
          },
          true,
        )
        else (q, false)
  ]

  -- The first half of `deadLetter`: the entry is dropped if the caller still owns it.
  pub release_held : Text → Option Text → MemoryQueue I → MemoryQueue I
  release_held id token q = elim (Map.get id q.in_flight) [
    | none ↦ q
    | some entry ↦
        if is_stale token entry.lease_token
        then q
        else record q { in_flight = Map.delete id q.in_flight }
  ]

  unfoldable pub dead_letter : DeadLetterEntry I → Option Text → MemoryQueue I → MemoryQueue I
  dead_letter entry token q = push_dead entry (release_held entry.message.id token q)

  -- `dead.slice(-limit).reverse()`: `slice(-0)` is `slice(0)`, which is the whole list.
  unfoldable pub list_dead_letters : Option ℕ → MemoryQueue I → List (DeadLetterEntry I)
  list_dead_letters limit q =
      let n = or_else limit 100 in
      reverse (if nat_beq n 0 then q.dead else drop (length q.dead - n) q.dead)

  -- `resetForRedrive`
  pub reset_for_redrive : ℕ → QueueMessage I → QueueMessage I
  reset_for_redrive now m = record m {
    attempt = 0;
    deliveries = some 0;
    lease_token = none;
    available_at = now;
  }

  unfoldable pub redrive_dead_letter : ℕ → Text → MemoryQueue I → MemoryQueue I × Bool
  redrive_dead_letter now id q =
      elim (splice_first (λ (d : DeadLetterEntry I). d.message.id == id) q.dead) [
        | none ↦ (q, false)
        | some (entry, rest) ↦ (
          record q {
            dead = rest;
            messages = q.messages ++ reset_for_redrive now entry.message ∷ [];
          },
          true,
        )
      ]

  -- `redriveDeadLetters`; no limit is an infinite one.
  pub redrive_all : ℕ → List (DeadLetterEntry I) → List (QueueMessage I) → List (QueueMessage I)
  redrive_all now [] messages = messages
  redrive_all now (entry ∷ batch) messages =
      redrive_all now batch (messages ++ reset_for_redrive now entry.message ∷ [])

  unfoldable pub redrive_dead_letters : ℕ → Option ℕ → MemoryQueue I → MemoryQueue I × ℕ
  redrive_dead_letters now limit q =
      let n = min (length q.dead) (or_else limit (length q.dead)) in
      (
        record q { dead = drop n q.dead; messages = redrive_all now (take n q.dead) q.messages },
        length (take n q.dead),
      )

  unfoldable pub purge_dead_letters : MemoryQueue I → MemoryQueue I × ℕ
  purge_dead_letters q = (record q { dead = [] }, length q.dead)

  abbrev pub dead_letter_size : MemoryQueue I → ℕ
  dead_letter_size q = length q.dead

  abbrev pub size : MemoryQueue I → ℕ
  size q = length q.messages

  abbrev pub in_flight_size : MemoryQueue I → ℕ
  in_flight_size q = length q.in_flight

-- A call of the queue's interface, with the readings of the clock and the fresh token it uses.
pub data QueueOp (I : Type 0) : Type 0 where
  push_op : QueueMessage I → QueueOp I
  pop_op : (reclaim_at now : ℕ) → (token : Text) → QueueOp I
  ack_op : Text → Option Text → QueueOp I
  nack_op : ℕ → Text → Option ℕ → Option Text → Option TaskFailure → QueueOp I
  extend_op : ℕ → Text → Text → Option ℕ → QueueOp I
  dead_letter_op : DeadLetterEntry I → Option Text → QueueOp I
  redrive_op : ℕ → Text → QueueOp I
  redrive_many_op : ℕ → Option ℕ → QueueOp I
  purge_op : QueueOp I

module _ {I : Type 0} where
  unfoldable pub step : QueueOp I → MemoryQueue I → MemoryQueue I
  step (push_op m) q = push m q
  step (pop_op r n t) q = (pop r n t q).0
  step (ack_op id t) q = ack id t q
  step (nack_op n id d t f) q = nack n id d t f q
  step (extend_op n id t x) q = (extend n id t x q).0
  step (dead_letter_op e t) q = dead_letter e t q
  step (redrive_op n id) q = (redrive_dead_letter n id q).0
  step (redrive_many_op n l) q = (redrive_dead_letters n l q).0
  step purge_op q = (purge_dead_letters q).0

  pub run : List (QueueOp I) → MemoryQueue I → MemoryQueue I
  run [] q = q
  run (op ∷ ops) q = run ops (step op q)
