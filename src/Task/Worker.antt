-- ===== src/Task/Worker.antt =====
-- packages/core/src/task.ts: what the worker does with a message that it has popped, and
-- `createEnqueue`, over the queue backend of packages/core/src/queue.ts. A backend's operation says
-- beside its new state whether its promise resolves. Log lines are left out; a call of a hook is a
-- report, as what a hook throws is only logged. Readings of the clock are arguments.
pub mod Ownership
use celsian.Base.{
  ℕ, ◌+◌, ◌*◌, ◌^◌, Bool, true, false, not, ◌&&◌, Option, none, some, List, [], ◌∷◌, ◌++◌, Text,
  codes, ltb, min, if◌then◌else◌,
}
use celsian.Queue.Types.{TaskFailure, QueueMessage, DeadLetterEntry, MemoryQueue}
use celsian.Queue.{or_else, push, ack, nack, extend, dead_letter}
use celsian.Task.Registry.{TaskDefinition, TaskRegistry, TaskError, unknown_task, get}

-- The operations that the worker calls; `extend` and `deadLetter` are optional.
pub record QueueBackend (S I : Type 0) : Type 0 where
  pub push_to : QueueMessage I → S → S × Bool
  pub ack_to : Text → Option Text → S → S × Bool
  pub nack_to : ℕ → Text → Option ℕ → Option Text → Option TaskFailure → S → S × Bool
  pub extend_to : Option (ℕ → Text → Text → Option ℕ → S → S × Option Bool)
  pub dead_letter_to : Option (DeadLetterEntry I → Option Text → S → S × Bool)

-- The in-memory queue, no operation of which rejects.
unfoldable pub memory_backend : {I : Type 0} → QueueBackend (MemoryQueue I) I
unfolding push ack nack extend dead_letter
memory_backend = record {
  push_to = λ m q. (push m q, true);
  ack_to = λ id token q. (ack id token q, true);
  nack_to = λ now id delay token failure q. (nack now id delay token failure q, true);
  extend_to =
      some
        (λ now id token extra q. let (q', held) = extend now id token extra q in (q', some held));
  dead_letter_to = some (λ entry token q. (dead_letter entry token q, true));
}

pub record TaskFailureInfo (I : Type 0) : Type 0 where
  pub message : QueueMessage I
  pub error : Text
  pub failures : List TaskFailure
  pub will_retry : Bool
  pub retry_delay : Option ℕ

-- A call of `onFailure` or `onDeadLetter`.
pub data Report (I : Type 0) : Type 0 where
  failure_report : TaskFailureInfo I → Report I
  dead_letter_report : DeadLetterEntry I → Report I

-- How a handler ends: it resolves, or it throws, rejects or runs into its timeout.
pub data Ending : Type 0 where
  resolved : Ending
  rejected : Text → Ending

abbrev pub is_truthy : Option Text → Bool
is_truthy none = false
is_truthy (some []) = false
is_truthy (some (c ∷ s)) = true

unfoldable pub retry_delay_of : ℕ → ℕ
retry_delay_of attempt = min (1000 * 2 ^ attempt) 30000

module _ {S I : Type 0} (queue : QueueBackend S I) where
  unfoldable pub safe_ack : Text → Option Text → S → S
  safe_ack id token q = (queue.ack_to id token q).0

  unfoldable pub safe_nack : ℕ → Text → ℕ → Option Text → TaskFailure → S → S
  safe_nack now id delay token failure q =
      (queue.nack_to now id (some delay) token (some failure) q).0

  unfoldable pub fail_permanently :
      ℕ → QueueMessage I → Option Text → Text → List TaskFailure → S → S × List (Report I)
  fail_permanently now message token error failures q =
      let entry : DeadLetterEntry I = record {
        message = record message { failures = some failures };
        error = error;
        failures = failures;
        dead_lettered_at = now;
      } in
      elim queue.dead_letter_to [
        | some bury ↦
            let (q', buried) = bury entry token q in
            (q', if buried then dead_letter_report entry ∷ [] else [])
        | none ↦ (safe_ack message.id token q, dead_letter_report entry ∷ [])
      ]

  -- `failed_at`, the clock of the queue's `nack`, and `dead_lettered_at`.
  unfoldable pub handle_failure :
      (failed_at now dead_at : ℕ)
      → QueueMessage I
      → Option Text
      → Option ℕ
      → Text
      → S
      → S × List (Report I)
  handle_failure failed_at now dead_at message token retries error q =
      let failure : TaskFailure = record {
        attempt = message.attempt;
        error = error;
        failed_at = failed_at;
      } in
      let failures = or_else message.failures [] ++ failure ∷ [] in
      let will_retry = ltb message.attempt (or_else retries 0) in
      let delay = retry_delay_of message.attempt in
      let report = failure_report (record {
        message = message;
        error = error;
        failures = failures;
        will_retry = will_retry;
        retry_delay = if will_retry then some delay else none;
      }) in
      let (q', reports) = fail_permanently dead_at message token error failures q in
      if will_retry
      then (safe_nack now message.id delay token failure q, report ∷ [])
      else (q', report ∷ reports)

  -- `processMessage`, with the way that the handler ends.
  unfoldable pub process_message :
      {H : Type 0}
      → (failed_at now dead_at : ℕ) → TaskRegistry H
      → QueueMessage I
      → Ending
      → S
      → S × List (Report I)
  process_message failed_at now dead_at registry message ending q =
      elim (get message.task_name registry) [
        | none ↦
            fail_permanently dead_at message message.lease_token
              (codes "Unknown task: \"" ++ (message.task_name ++ codes "\"")) [] q
        | some definition ↦ elim ending [
          | resolved ↦ (safe_ack message.id message.lease_token q, [])
          | rejected error ↦
              handle_failure failed_at now dead_at message message.lease_token definition.retries
                error q
        ]
      ]

  abbrev heartbeat_answer : S × Option Bool → S × Bool
  heartbeat_answer (q, none) = (q, false)
  heartbeat_answer (q, some held) = (q, held)

  abbrev extend_with :
      Option (ℕ → Text → Text → Option ℕ → S → S × Option Bool)
      → ℕ
      → Text
      → Option Text
      → Option ℕ
      → S
      → S × Bool
  extend_with none now id token extra q = (q, false)
  extend_with (some extend) now id none extra q = (q, false)
  extend_with (some extend) now id (some []) extra q = (q, false)
  extend_with (some extend) now id (some (c ∷ token)) extra q =
      heartbeat_answer (extend now id (c ∷ token) extra q)

  -- `heartbeat`: an empty token holds no lease.
  unfoldable pub heartbeat : ℕ → QueueMessage I → Option Text → Option ℕ → S → S × Bool
  heartbeat now message token extra q = extend_with queue.extend_to now message.id token extra q

  -- `enqueue`, with a fresh id and the two readings of the clock; a rejected push is none.
  unfoldable pub enqueue :
      {H : Type 0}
      → (created_at available_at : ℕ) → (id : Text) → TaskRegistry H
      → Text
      → I
      → S
      → S × (Option TaskError × Option Text)
  enqueue created_at available_at id registry name input q = elim (get name registry) [
    | none ↦ (q, (some (unknown_task name), none))
    | some definition ↦
        let (q', pushed) =
          queue.push_to
            (record {
              id = id;
              task_name = name;
              input = input;
              attempt = 0;
              max_retries = or_else definition.retries 0;
              created_at = created_at;
              available_at = available_at;
              deliveries = some 0;
              lease_token = none;
              failures = some [];
            })
            q in
        (q', (none, if pushed then some id else none))
  ]
