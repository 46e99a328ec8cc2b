-- ===== src/Queue/Tests.antt =====
-- Runs of the queue of packages/core/src/queue.ts, and its theorems at concrete states.
use celsian.Base.{
  ℕ, ◌≤◌, ◌<◌, ◌≡◌, ◌≢◌, ◌↔◌, refl, inr, none, some, [], ◌∷◌, length, arith, Text, codes, text_beq,
  text_beq_iff, text_eq, All,
}
use celsian.Map
use celsian.Queue.Types.{QueueMessage, InFlightEntry, MemoryQueueOptions, MemoryQueue}
use celsian.Queue.{
  push_op, pop_op, ack_op, step, run, init, push, pop, ack, nack, extend, dead_letter,
  redrive_dead_letter, redrive_dead_letters, list_dead_letters, keep_newest, push_dead, settle,
  expire, dead_entry, reclaim_entry, reclaim_loop, reclaim_expired, lease_next, deliver,
  splice_first, retry, reset_for_redrive, redrive_all,
}
use celsian.Queue.Validity.{IsValid, run-IsValid}
use celsian.Queue.Reclaim.{reclaimed, reclaim_expired_lem}
use celsian.Queue.Lease.{step-get_held}
use celsian.Queue.Delivery.{IsDelivered, waiting, pop-IsDelivered, pop-none_iff}
use celsian.Queue.Times.{times}
use celsian.Queue.Conservation.{tally, step-tally}

-- The definitions that a run goes through.
queue : Unit {0}
unfolding init push pop ack nack extend dead_letter redrive_dead_letter redrive_dead_letters
    list_dead_letters keep_newest push_dead settle expire dead_entry reclaim_entry reclaim_loop
    reclaim_expired lease_next deliver splice_first retry reset_for_redrive redrive_all step run
    Map.get Map.set Map.delete text_beq
queue = tt

abbrev message : Text → ℕ → QueueMessage ℕ
message id at = record {
  id = id;
  task_name = codes "mail";
  input = 7;
  attempt = 0;
  max_retries = 1;
  created_at = 0;
  available_at = at;
  deliveries = some 0;
  lease_token = none;
  failures = some [];
}

abbrev a : Text
a = codes "a"

abbrev b : Text
b = codes "b"

abbrev token : Text
token = codes "t1"

abbrev lease : InFlightEntry ℕ
lease = record {
  message = record (message a 0) { deliveries = some 1; lease_token = some token };
  lease_token = token;
  expires_at = 30;
}

-- `a` is leased until 30, `b` waits until 40.
abbrev busy : MemoryQueue ℕ
busy = record {
  messages = message b 40 ∷ [];
  in_flight = (a, lease) ∷ [];
  dead = [];
  completed = [];
  max_completed_jobs = 2;
  max_dead_letters = 2;
  visibility_timeout_ms = 30;
}

busy-IsValid : IsValid busy
busy-IsValid = record {
  distinct = (tt, tt);
  keyed = ((refl, refl), tt);
  completed_bounded = omega arith;
  dead_bounded = omega arith;
}

abbrev options : MemoryQueueOptions
options = record {
  max_completed_jobs = none;
  visibility_timeout = some 30;
  max_dead_letters = none;
}

-- Two lease expiries use up one retry: the job is delivered twice and then dead-lettered.
poison_pill :
    (length
        (run
          (push_op (message a 0) ∷ pop_op 0 0 token ∷ pop_op 30 30 b ∷ pop_op 60 60 b ∷ [])
          (init {I = ℕ} options)).dead
      ≡ 1)
    × ((pop 30 30 b (run (push_op (message a 0) ∷ pop_op 0 0 token ∷ []) (init {I = ℕ} options))).1
        ≢ none)
unfolding queue
poison_pill = (refl, λ e. cc)

run-IsValid_example :
    IsValid
      (run (push_op (message a 0) ∷ pop_op 0 0 token ∷ ack_op a none ∷ []) (init {I = ℕ} options))
run-IsValid_example =
    run-IsValid options (push_op (message a 0) ∷ pop_op 0 0 token ∷ ack_op a none ∷ [])

reclaim_expired_lem_example : reclaim_expired 30 busy ≡ reclaimed 30 busy.in_flight busy
reclaim_expired_lem_example = reclaim_expired_lem 30 busy busy-IsValid

b_ne_a : b ≢ a
unfolding text_beq
b_ne_a = ground (arith, text_beq_iff b a)

b_ne_token : b ≢ token
unfolding text_beq
b_ne_token = ground (arith, text_beq_iff b token)

step-get_held_example : Map.get a (step (ack_op a (some b)) busy).in_flight ≡ some lease
unfolding queue
step-get_held_example =
    step-get_held (ack_op a (some b)) a lease busy busy-IsValid (b_ne_a, tt) refl
      (inr (b, refl, b_ne_token))

pop-IsDelivered_example :
    IsDelivered 45 b (waiting 40 busy) (pop 40 45 b busy).0 (deliver b (message b 40))
unfolding queue
pop-IsDelivered_example =
    pop-IsDelivered 40 45 b busy {m = deliver b (message b 40)} busy-IsValid refl

pop-none_iff_example :
    ((pop 10 10 b busy).1 ≡ none)
    ↔ All (λ (m : QueueMessage ℕ). 10 < m.available_at) (waiting 10 busy)
pop-none_iff_example = pop-none_iff 10 10 b busy busy-IsValid

busy_unique : (j : Text) → tally j busy ≤ 1
unfolding times text_beq
busy_unique j = ground arith

step-tally_example : tally a (step (pop_op 30 30 b) busy) ≡ tally a busy
step-tally_example = step-tally (pop_op 30 30 b) a busy busy-IsValid (omega arith) busy_unique tt
