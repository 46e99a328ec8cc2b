-- ===== src/Task.antt =====
-- packages/core/src/task.ts: the registry of tasks, and the worker between it and the queue.
pub mod Registry
pub mod Worker
mod Tests
