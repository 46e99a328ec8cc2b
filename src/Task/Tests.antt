-- ===== src/Task/Tests.antt =====
-- Runs of packages/core/src/task.ts, and its theorems at concrete registries and queues.
use celsian.Base.{
  ℕ, ◌+◌, ◌<◌, ◌≡◌, ◌⊎◌, refl, none, some, [], ◌∷◌, true, arith, Text, codes, text_beq,
}
use celsian.Map
use celsian.Queue.Types.{QueueMessage, InFlightEntry, MemoryQueue}
use celsian.Queue.Conservation.{tally}
use celsian.Task.Registry.{
  TaskDefinition, TaskRegistry, init, assert_timeout_is_safe, assert_all, set_queue_constraints,
  register, get, resolve_timeout, is_long_running,
}
use celsian.Task.Registry.Timeouts.{constrain_op, register_op, run, resolve_timeout-lt}
use celsian.Task.Worker.{rejected, memory_backend, process_message, retry_delay_of}
use celsian.Task.Worker.Ownership.{process_message-tally_stale}

-- The definitions that a run goes through.
registering : Unit {0}
unfolding init assert_timeout_is_safe assert_all set_queue_constraints register get run Map.get
    Map.set text_beq
registering = tt

abbrev mail : TaskDefinition ℕ
mail = record {
  name = codes "mail";
  handler = 1;
  retries = some 2;
  timeout = none;
  long_running = none;
}

abbrev registry : TaskRegistry ℕ
registry = record {
  tasks = (codes "mail", mail) ∷ [];
  visibility_timeout = some 30000;
  backend_can_heartbeat = true;
}

delays : (retry_delay_of 0 ≡ 1000) × ((retry_delay_of 3 ≡ 8000) × (retry_delay_of 9 ≡ 30000))
unfolding retry_delay_of
delays = (refl, (refl, refl))

resolve_timeout-lt_example :
    (resolve_timeout 30000 mail < 30000)
    ⊎ ((is_long_running none ≡ true) × (registry.backend_can_heartbeat ≡ true))
unfolding registering
resolve_timeout-lt_example =
    resolve_timeout-lt (register_op mail ∷ constrain_op (some 30000) true ∷ []) registry
      (codes "mail") mail 30000 refl refl refl (omega arith)

abbrev message : QueueMessage ℕ
message = record {
  id = codes "a";
  task_name = codes "mail";
  input = 7;
  attempt = 0;
  max_retries = 2;
  created_at = 0;
  available_at = 0;
  deliveries = some 1;
  lease_token = some (codes "t1");
  failures = some [];
}

abbrev lease : Text → InFlightEntry ℕ
lease token = record {
  message = record message { lease_token = some token };
  lease_token = token;
  expires_at = 30;
}

-- The message is leased under a token.
abbrev leased : Text → MemoryQueue ℕ
leased token = record {
  messages = [];
  in_flight = (codes "a", lease token) ∷ [];
  dead = [];
  completed = [];
  max_completed_jobs = 2;
  max_dead_letters = 2;
  visibility_timeout_ms = 30;
}

process_message-tally_stale_example :
    tally
      (codes "a")
      (process_message memory_backend 5 5 5
        (init {H = ℕ})
        message
        (rejected (codes "down"))
        (leased (codes "t2"))).0
    ≡ tally (codes "a") (leased (codes "t2")) + 1
unfolding registering
process_message-tally_stale_example =
    process_message-tally_stale 5 5 5 (init {H = ℕ}) message (codes "down") (lease (codes "t2"))
      (leased (codes "t2")) refl refl refl (omega arith)
