-- ===== src/Task/Worker/Ownership.antt =====
-- The worker against the in-memory queue: where a job that fails goes.
use celsian.Base.{ℕ, ◌+◌, ◌≤◌, ◌≡◌, true, none, some, Text, text_eq, length}
use celsian.Map
use celsian.Queue.Types.{QueueMessage, InFlightEntry, MemoryQueue}
use celsian.Queue.{is_stale}
use celsian.Queue.Conservation.{tally}
use celsian.Queue.StaleDeadLetter.{tally-dead_letter_stale}
use celsian.Task.Registry.{TaskRegistry, get}
use celsian.Task.Worker.{rejected, memory_backend, process_message, fail_permanently}

module _ {I H : Type 0} where
  -- A worker whose lease has been lost still dead-letters a job whose task is unknown: when there is
  -- room for a dead letter, the job stands in the queue once more than before, beside the delivery
  -- that has it now.
  pub process_message-tally_stale :
      (failed_at now dead_at : ℕ) (registry : TaskRegistry H) (message : QueueMessage I)
      (error : Text) (entry : InFlightEntry I) (q : MemoryQueue I)
      → get message.task_name registry ≡ none
      → Map.get message.id q.in_flight ≡ some entry
      → is_stale message.lease_token entry.lease_token ≡ true
      → length q.dead + 1 ≤ q.max_dead_letters
      → tally message.id
          (process_message memory_backend failed_at now dead_at registry message
            (rejected error)
            q).0
        ≡ tally message.id q + 1
  unfolding process_message fail_permanently memory_backend
  process_message-tally_stale failed_at now dead_at registry message error entry q unknown leased
        stale room =
      rw (unknown, process_message)
        (tally-dead_letter_stale _ message.lease_token entry q leased stale room)
