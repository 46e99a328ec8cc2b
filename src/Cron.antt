-- ===== src/Cron.antt =====
-- packages/core/src/cron.ts: cron expressions and the scheduler.
pub mod Words
pub mod Fields
pub mod Schedule
pub mod Scheduler
mod Tests
