-- ===== src/Task/Registry.antt =====
-- packages/core/src/task.ts: `TaskRegistry` and the worker's effective timeout. A handler is of a
-- parameter type, and a thrown error is a value beside the state that the code leaves.
pub mod Timeouts
use celsian.Base.{
  ℕ, ◌*◌, ◌/◌, Bool, true, false, not, ◌&&◌, ◌||◌, Option, none, some, List, [], ◌∷◌, Text, text_eq,
  ltb, min, max, map, if◌then◌else◌,
}
use celsian.Map
use celsian.Map.{Map}

pub record TaskDefinition (H : Type 0) : Type 0 where
  pub name : Text
  pub handler : H
  pub retries : Option ℕ
  pub timeout : Option ℕ
  pub long_running : Option Bool

pub record TaskRegistry (H : Type 0) : Type 0 where
  pub tasks : Map Text (TaskDefinition H)
  pub visibility_timeout : Option ℕ
  pub backend_can_heartbeat : Bool

-- The errors, each with the task's name.
pub data TaskError : Type 0 where
  timeout_not_below_lease : Text → TaskError
  no_heartbeat : Text → TaskError
  unknown_task : Text → TaskError

abbrev pub default_task_timeout : ℕ
default_task_timeout = 25000

abbrev pub is_long_running : Option Bool → Bool
is_long_running none = false
is_long_running (some b) = b

module _ {H : Type 0} where
  unfoldable pub init : TaskRegistry H
  init = record { tasks = []; visibility_timeout = none; backend_can_heartbeat = false }

  abbrev long_running_error : Bool → TaskDefinition H → Option TaskError
  long_running_error can_heartbeat definition =
      if not (is_long_running definition.long_running)
      then some (timeout_not_below_lease definition.name)
      else if not can_heartbeat
      then some (no_heartbeat definition.name)
      else none

  -- The two early returns need both timeouts.
  abbrev timeout_error : Option ℕ → Bool → Option ℕ → TaskDefinition H → Option TaskError
  timeout_error none can_heartbeat timeout definition = none
  timeout_error (some visibility) can_heartbeat none definition = none
  timeout_error (some visibility) can_heartbeat (some timeout) definition =
      if ltb timeout visibility then none else long_running_error can_heartbeat definition

  -- `assertTimeoutIsSafe`
  unfoldable pub assert_timeout_is_safe : TaskDefinition H → TaskRegistry H → Option TaskError
  assert_timeout_is_safe definition r =
      timeout_error r.visibility_timeout r.backend_can_heartbeat definition.timeout definition

  -- The loop of `setQueueConstraints`, which stops at the first error.
  unfoldable pub assert_all : Map Text (TaskDefinition H) → TaskRegistry H → Option TaskError
  assert_all [] r = none
  assert_all ((name, definition) ∷ rest) r =
      let later = assert_all rest r in
      elim (assert_timeout_is_safe definition r) [ none ↦ later | some e ↦ some e ]

  unfoldable pub set_queue_constraints :
      Option ℕ → Bool → TaskRegistry H → TaskRegistry H × Option TaskError
  set_queue_constraints visibility_timeout can_heartbeat r =
      let r' = record r {
        visibility_timeout = visibility_timeout;
        backend_can_heartbeat = can_heartbeat;
      } in
      (r', assert_all r'.tasks r')

  unfoldable pub register : TaskDefinition H → TaskRegistry H → TaskRegistry H × Option TaskError
  register definition r = elim (assert_timeout_is_safe definition r) [
    | some e ↦ (r, some e)
    | none ↦ (record r { tasks = Map.set definition.name definition r.tasks }, none)
  ]

  unfoldable pub get : Text → TaskRegistry H → Option (TaskDefinition H)
  get name r = Map.get name r.tasks

  unfoldable pub has : Text → TaskRegistry H → Bool
  has name r = Map.has name r.tasks

  abbrev pub list : TaskRegistry H → List (TaskDefinition H)
  list r = map (λ e. e.1) r.tasks

  -- `resolveTimeout`, for the worker's visibility timeout.
  unfoldable pub resolve_timeout : ℕ → TaskDefinition H → ℕ
  resolve_timeout visibility definition = elim definition.timeout [
    | some timeout ↦ timeout
    | none ↦ max 1 (min default_task_timeout (visibility * 8 / 10))
  ]
