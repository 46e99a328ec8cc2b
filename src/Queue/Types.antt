-- ===== src/Queue/Types.antt =====
-- The records of packages/core/src/queue.ts.
use celsian.Base.{ℕ, Option, List, Text}
use celsian.Map.{Map}

pub record TaskFailure : Type 0 where
  pub attempt : ℕ
  pub error : Text
  pub failed_at : ℕ

pub record QueueMessage (I : Type 0) : Type 0 where
  pub id : Text
  pub task_name : Text
  pub input : I
  pub attempt : ℕ
  pub max_retries : ℕ
  pub created_at : ℕ
  pub available_at : ℕ
  pub deliveries : Option ℕ
  pub lease_token : Option Text
  pub failures : Option (List TaskFailure)

pub record DeadLetterEntry (I : Type 0) : Type 0 where
  pub message : QueueMessage I
  pub error : Text
  pub failures : List TaskFailure
  pub dead_lettered_at : ℕ

pub record InFlightEntry (I : Type 0) : Type 0 where
  pub message : QueueMessage I
  pub lease_token : Text
  pub expires_at : ℕ

pub record MemoryQueueOptions : Type 0 where
  pub max_completed_jobs : Option ℕ
  pub visibility_timeout : Option ℕ
  pub max_dead_letters : Option ℕ

pub record MemoryQueue (I : Type 0) : Type 0 where
  pub messages : List (QueueMessage I)
  pub in_flight : Map Text (InFlightEntry I)
  pub dead : List (DeadLetterEntry I)
  pub completed : List Text
  pub max_completed_jobs : ℕ
  pub max_dead_letters : ℕ
  pub visibility_timeout_ms : ℕ
