-- ===== src/Task/Registry/Timeouts.antt =====
-- No task outlives its lease.
use celsian.Base.{
  ◌⊎◌, subst, ℕ, ◌≤◌, ◌<◌, ◌≡◌, inl, inr, Bool, true, Option, none, some, List, [], ◌∷◌, Text,
  text_eq, arith, All, Option-cases,
}
use celsian.Map
use celsian.Map.{Map}
use celsian.Map.Laws.{All-set, All-get}
use celsian.Task.Registry.{
  TaskDefinition, TaskRegistry, TaskError, init, assert_timeout_is_safe, assert_all,
  set_queue_constraints, register, get, is_long_running, resolve_timeout,
}

-- What a client does to a registry: a worker is made for a queue, or a task is registered.
pub data RegistryOp (H : Type 0) : Type 0 where
  constrain_op : Option ℕ → Bool → RegistryOp H
  register_op : TaskDefinition H → RegistryOp H

refused : {e : TaskError} → ◌≡◌ {A = Option TaskError} (some e) none → ⊥
refused h = cc

module _ {H : Type 0} where
  -- The state after operations that all succeed.
  unfoldable pub run : List (RegistryOp H) → TaskRegistry H → Option (TaskRegistry H)
  run [] r = some r
  run (constrain_op v c ∷ ops) r =
      let rest = run ops (set_queue_constraints v c r).0 in
      elim (set_queue_constraints v c r).1 [ none ↦ rest | some e ↦ none ]
  run (register_op d ∷ ops) r =
      let rest = run ops (register d r).0 in elim (register d r).1 [ none ↦ rest | some e ↦ none ]

  abbrev IsSafe : TaskRegistry H → Text × TaskDefinition H → Type 0
  IsSafe r e = assert_timeout_is_safe e.1 r ≡ none

  missing : {r : TaskRegistry H} → ◌≡◌ {A = Option (TaskRegistry H)} none (some r) → ⊥
  missing h = cc

  same_state : {a b : TaskRegistry H} → ◌≡◌ {A = Option (TaskRegistry H)} (some a) (some b) → a ≡ b
  same_state h = cc

  assert_all-IsSafe :
      (m : Map Text (TaskDefinition H)) (r : TaskRegistry H)
      → assert_all m r ≡ none
      → All (IsSafe r) m
  unfolding assert_all
  assert_all-IsSafe [] r h = tt
  assert_all-IsSafe ((name, d) ∷ m) r h = elim (Option-cases (assert_timeout_is_safe d r)) [
    | inl e ↦ (e, assert_all-IsSafe m r (rw (e, assert_all) at h))
    | inr (error, e) ↦ absurd (refused (rw (e, assert_all) at h))
  ]

  more_tasks-IsSafe :
      (r : TaskRegistry H) (tasks m : Map Text (TaskDefinition H))
      → All (IsSafe r) m
      → All (IsSafe (record r { tasks = tasks })) m
  unfolding assert_timeout_is_safe
  more_tasks-IsSafe r tasks [] h = tt
  more_tasks-IsSafe r tasks (e ∷ m) (here, h) = (here, more_tasks-IsSafe r tasks m h)

  register-IsSafe :
      (d : TaskDefinition H) (r : TaskRegistry H)
      → All (IsSafe r) r.tasks
      → All (IsSafe (register d r).0) (register d r).0.tasks
  unfolding register
  register-IsSafe d r s = elim (Option-cases (assert_timeout_is_safe d r)) [
    | inr (error, e) ↦ rw (e, register) s
    | inl e ↦
        rw (e, register)
          (more_tasks-IsSafe r (Map.set d.name d r.tasks) (Map.set d.name d r.tasks)
            (All-set (IsSafe r) d.name d r.tasks e s))
  ]

  constrained :
      (v : Option ℕ) (c : Bool) (r : TaskRegistry H)
      → (set_queue_constraints v c r).1 ≡ none
      → All (IsSafe (set_queue_constraints v c r).0) (set_queue_constraints v c r).0.tasks
  unfolding set_queue_constraints
  constrained v c r h =
      assert_all-IsSafe r.tasks (record r { visibility_timeout = v; backend_can_heartbeat = c }) h

  run-IsSafe :
      (ops : List (RegistryOp H)) (r r' : TaskRegistry H)
      → All (IsSafe r) r.tasks
      → run ops r ≡ some r'
      → All (IsSafe r') r'.tasks
  unfolding run
  run-IsSafe [] r r' s h = subst (λ x. All (IsSafe x) x.tasks) (same_state h) s
  run-IsSafe (register_op d ∷ ops) r r' s h = elim (Option-cases (register d r).1) [
    | inl e ↦ run-IsSafe ops (register d r).0 r' (register-IsSafe d r s) (rw (e, run) at h)
    | inr (error, e) ↦ absurd (missing (rw (e, run) at h))
  ]
  run-IsSafe (constrain_op v c ∷ ops) r r' s h =
      elim (Option-cases (set_queue_constraints v c r).1) [
        | inl e ↦
            run-IsSafe ops (set_queue_constraints v c r).0 r' (constrained v c r e)
              (rw (e, run) at h)
        | inr (error, e) ↦ absurd (missing (rw (e, run) at h))
      ]

  safe_timeout :
      (r : TaskRegistry H) (d : TaskDefinition H) (visibility : ℕ)
      → assert_timeout_is_safe d r ≡ none
      → r.visibility_timeout ≡ some visibility
      → 2 ≤ visibility
      → (resolve_timeout visibility d < visibility)
        ⊎ ((is_long_running d.long_running ≡ true) × (r.backend_can_heartbeat ≡ true))
  unfolding assert_timeout_is_safe resolve_timeout
  safe_timeout r d visibility safe lease enough = elim (Option-cases d.timeout) [
    | inl e ↦ rw (e, resolve_timeout) (inl (omega arith))
    | inr (timeout, e) ↦
        rw (e, resolve_timeout)
          (ground
            (arith, rw (e, assert_timeout_is_safe) at (rw (lease, assert_timeout_is_safe) at safe)))
  ]

  -- After registrations and queue constraints that all succeed, every task that is not marked as
  -- long-running has a timeout, its own or the default one, below a visibility timeout of 2
  -- milliseconds or more; and one that is so marked has such a timeout or a queue that can extend
  -- its lease.
  pub resolve_timeout-lt :
      (ops : List (RegistryOp H)) (r : TaskRegistry H) (name : Text) (d : TaskDefinition H)
      (visibility : ℕ)
      → run ops init ≡ some r
      → get name r ≡ some d
      → r.visibility_timeout ≡ some visibility
      → 2 ≤ visibility
      → (resolve_timeout visibility d < visibility)
        ⊎ ((is_long_running d.long_running ≡ true) × (r.backend_can_heartbeat ≡ true))
  unfolding resolve_timeout
  resolve_timeout-lt ops r name d visibility done found lease enough =
      safe_timeout r d visibility
        (All-get (IsSafe r) name d r.tasks (unfold get in found)
          (run-IsSafe ops init r (unfold init in tt) done))
        lease enough
